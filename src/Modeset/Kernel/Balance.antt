-- ===== src/Modeset/Kernel/Balance.antt =====
-- Counting what a run has got and given back.
use debian_config_files.Base.{ℕ, ◌+◌, ◌≡◌, ◌≢◌, arith, [], ◌∷◌}
use debian_config_files.Modeset.Kernel.{
  Resource, acquire, release, refuse, set_crtc, page_flip, commit, Log,
}
use mathlib.Core.Logic.{ite}
use native.Mathlib.Decide.{ℕ_discrete}

pub Resource-discrete : Discrete Resource
Resource-discrete = hlevel ℕ_discrete

-- 1 where the two are one resource, 0 where they differ.
pub same : Resource → Resource → ℕ
same r q = ite (Resource-discrete r q) 1 0

pub same-off : (r q : Resource) → r ≢ q → same r q ≡ 0
unfolding same
same-off r q h = ground arith

module _ (r : Resource) where
  abbrev pub acquired : Log → ℕ
  acquired [] = 0
  acquired (acquire q ∷ l) = same r q + acquired l
  acquired (release q ∷ l) = acquired l
  acquired (refuse ∷ l) = acquired l
  acquired (set_crtc s ∷ l) = acquired l
  acquired (page_flip c b ∷ l) = acquired l
  acquired (commit f s ∷ l) = acquired l

  abbrev pub released : Log → ℕ
  released [] = 0
  released (acquire q ∷ l) = released l
  released (release q ∷ l) = same r q + released l
  released (refuse ∷ l) = released l
  released (set_crtc s ∷ l) = released l
  released (page_flip c b ∷ l) = released l
  released (commit f s ∷ l) = released l

  -- From the log `l` on to `l'`, the program has come to hold `r` `n` times more.
  abbrev pub Gains : Log → Log → ℕ → Type 0
  Gains l l' n = acquired l' + released l ≡ acquired l + released l' + n
