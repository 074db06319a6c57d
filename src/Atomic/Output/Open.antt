-- ===== src/Atomic/Output/Open.antt =====
-- `modeset_open` of perftools/X/drm-howto/modeset-atomic.c.
use Prim.Native.String.{String}
use debian_config_files.Base.{Bool, ℕ, ◌+◌, ◌≡◌, refl, arith, ◌&&◌}
use debian_config_files.Modeset.Kernel.{Reply, done, fail, Resource, descriptor}
use debian_config_files.Modeset.Kernel.Balance.{same}
use debian_config_files.Modeset.Setup.{ok}
use debian_config_files.Atomic.Program.{ClientCap, universal_planes, atomic, Card}
use debian_config_files.Atomic.Program.Owns.{
  Owns, Any, Owns-bind, Owns-next, Owns-pure, Owns-look, Owns-get, Owns-give, Owns-if, Owns-status,
  Owns-refuse,
}
use debian_config_files.Atomic.Output.{check_caps, open_from, open_card}

-- The descriptor that `modeset_open` gives is held.
abbrev pub held_fd : Resource → Reply ℕ → ℕ
held_fd r (done fd) = same r (descriptor fd)
held_fd r (fail e) = 0

module _ (card : Card) (w : Bool) (r : Resource)
    (caps : (fd : ℕ) (cap : ClientCap) → card.set_cap fd cap ≡ ok) where
  check_caps-Owns :
      (fd : ℕ)
      → Owns w r (same r (descriptor fd) + 0) (check_caps card fd) (λ o. held_fd r o + 0) Any
  unfolding check_caps
  check_caps-Owns fd =
      Owns-if w r (card.drm.has_dumb fd && card.has_crtc_events fd) (Owns-pure w r _ refl tt)
        (Owns-next w r (Owns-give w r 0 (descriptor fd)) (Owns-pure w r _ (omega arith) tt))

  open_from-Owns : (reply : Reply ℕ) → Owns w r 0 (open_from card reply) (λ o. held_fd r o + 0) Any
  unfolding open_from
  open_from-Owns (fail e) = Owns-next w r (Owns-refuse w r 0) (Owns-pure w r _ (omega arith) tt)
  open_from-Owns (done fd) = Owns-next w r (Owns-get w r 0 (descriptor fd)) (
      Owns-status w r _ (card.set_cap fd universal_planes)
        (λ e q. absurd (let c = caps fd universal_planes in ground arith))
        (λ _.
          Owns-status w r _ (card.set_cap fd atomic)
            (λ e q. absurd (let c = caps fd atomic in ground arith)) (λ _. check_caps-Owns fd)))

  pub open_card-Owns : (node : String) → Owns w r 0 (open_card card node) (λ o. held_fd r o + 0) Any
  unfolding open_card
  open_card-Owns node =
      Owns-bind w r (Owns-look w r 0 (λ log. card.drm.open_node log node))
        (λ reply _. open_from-Owns reply)
