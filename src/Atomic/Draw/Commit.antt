-- ===== src/Atomic/Draw/Commit.antt =====
-- `modeset_atomic_prepare_commit` of perftools/X/drm-howto/modeset-atomic.c gets and gives back
-- nothing, and reads no null pointer, nor does a commit.
use Prim.Native.String.{String}
use debian_config_files.Base.{ℕ, refl, Bool}
use debian_config_files.Modeset.Kernel.{Resource, CommitFlags}
use debian_config_files.Modeset.Setup.{Status, ok, err}
use debian_config_files.Atomic.Program.{Card}
use debian_config_files.Atomic.Program.Owns.{
  Owns, Any, Owns-bind, Owns-next, Owns-pure, Owns-look, Owns-status, Owns-refuse, Owns-commit,
}
use debian_config_files.Atomic.Objects.{DrmObject, Request}
use debian_config_files.Atomic.Objects.Balance.{IsLoaded, set_object_property-Owns}
use debian_config_files.Atomic.Output.{Output}
use debian_config_files.Atomic.Output.Objects.{IsReady}
use debian_config_files.Atomic.Draw.{set_next, prepare_plane, prepare_commit, atomic_commit}

module _ (card : Card) (w : Bool) (r : Resource) where
  set_next-Owns :
      (obj : DrmObject) (name : String) (value : ℕ) (p : Status × Request) (n : ℕ)
      → IsLoaded obj
      → Owns w r n (set_next card obj name value p) (λ _. n) Any
  unfolding set_next
  set_next-Owns obj name value (err e, req) n h = Owns-pure w r _ refl tt
  set_next-Owns obj name value (ok, req) n h =
      Owns-bind w r (set_object_property-Owns card w r obj name value req n h) (λ set _.
        Owns-status w r _ set.0 (λ e q. Owns-pure w r _ refl tt) (λ q. Owns-pure w r _ refl tt))

  module _ (n : ℕ) (out : Output) (h : IsReady out) where
    prepare_plane-Owns : (p : Status × Request) → Owns w r n (prepare_plane card out p) (λ _. n) Any
    unfolding prepare_plane
    prepare_plane-Owns p =
        let set : (name : String) (value : ℕ) (p : Status × Request)
            → Any p
            → Owns w r n (set_next card out.plane name value p) (λ _. n) Any =
          λ name value p _. set_next-Owns out.plane name value p n h.plane in
        Owns-bind w r (set _ _ p tt) (λ p₁ _. Owns-bind w r (set _ _ p₁ tt) (λ p₂ _.
          Owns-bind w r (set _ _ p₂ tt) (λ p₃ _. Owns-bind w r (set _ _ p₃ tt) (λ p₄ _.
            Owns-bind w r (set _ _ p₄ tt) (λ p₅ _. Owns-bind w r (set _ _ p₅ tt) (λ p₆ _.
              Owns-bind w r (set _ _ p₆ tt) (λ p₇ _.
                Owns-bind w r (set _ _ p₇ tt)
                  (λ p₈ _. Owns-bind w r (set _ _ p₈ tt) (set _ _)))))))))

    pub prepare_commit-Owns :
        (req : Request) → Owns w r n (prepare_commit card out req) (λ _. n) Any
    unfolding prepare_commit
    prepare_commit-Owns req = Owns-bind w r (set_next-Owns out.conn _ _ _ n h.conn) (λ p₁ _.
        Owns-bind w r (set_next-Owns out.crtc _ _ p₁ n h.crtc) (λ p₂ _.
          Owns-bind w r (set_next-Owns out.crtc _ _ p₂ n h.crtc) (λ p₃ _. prepare_plane-Owns p₃)))

  pub atomic_commit-Owns :
      (flags : CommitFlags) (req : Request) (n : ℕ)
      → Owns w r n (atomic_commit card flags req) (λ _. n) Any
  unfolding atomic_commit
  atomic_commit-Owns flags req n =
      Owns-bind w r (Owns-look w r n (λ log. card.try_commit log flags req.settings)) (λ status _.
        Owns-status w r _ status
          (λ e q. Owns-next w r (Owns-refuse w r n) (Owns-pure w r _ refl tt))
          (λ q. Owns-next w r (Owns-commit w r n flags req.settings) (Owns-pure w r _ refl tt)))
