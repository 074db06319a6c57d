-- ===== src/Vsync/Cleanup/Laws.antt =====
-- That `modeset_cleanup` of perftools/X/drm-howto/modeset-vsync.c ends every flip before it frees
-- the buffers: the wait, and one device.
use debian_config_files.Base.{
  ℕ, suc, ◌≡◌, inl, inr, refl, ap, sym, subst, ◌∙◌, Bool, true, false, none, List, [], ◌∷◌, arith,
  length, Option-cases, if◌then◌else◌,
}
use debian_config_files.Modeset.Kernel.{SavedCrtc}
use debian_config_files.Double.Draw.{Display, front_of, back_of}
use debian_config_files.Double.Main.{restore}
use debian_config_files.Vsync.Host.{
  Dev, Kernel, Host, set_at, ended, blocked, Answer, failed, events,
}
use debian_config_files.Vsync.Draw.{handle_events}
use debian_config_files.Vsync.Draw.Invariant.{Phase, Good, ids_of, Inv, Elsewhere, set_at-off}
use debian_config_files.Vsync.Draw.Events.{Good-others}
use debian_config_files.Vsync.Draw.Start.{own_crtc}
use debian_config_files.Vsync.Draw.Safety.{
  Safe, Safe-and_then, Safe-map, Safe-may, and_then, Kept, handle_events-Kept,
}
use debian_config_files.Vsync.Cleanup.{first_pending, wait_flip, put_back, free_dev}

-- No call of `drmHandleEvent` fails.
abbrev pub NoFailure : List Answer → Type 0
NoFailure [] = Unit
NoFailure (failed ∷ answers) = ⊥
NoFailure (events crtcs ∷ answers) = NoFailure answers

-- No flip is pending.
abbrev pub Quiet : Host → Type 0
Quiet h = (c : ℕ) → h.kernel.flip c ≡ none

-- What the wait for the first device leaves.
pub record Waited (devs : List Dev) (out : List Dev × Host × List Answer) : Type 0 where
  pub inv : Inv out.0 out.1.kernel
  pub ids : ids_of out.0 ≡ ids_of devs
  pub idle : first_pending out.0 ≡ false
  pub left : NoFailure out.2

pub Waited-after :
    (devs : List Dev) (out : List Dev × Host) (out' : List Dev × Host × List Answer)
    → Kept devs out
    → Waited out.0 out'
    → Waited devs out'
Waited-after devs out out' k w = record {
  inv = w.inv;
  ids = w.ids ∙ k.ids;
  idle = w.idle;
  left = w.left;
}

abbrev pub tail_of : List (ℕ × ℕ) → List (ℕ × ℕ)
tail_of [] = []
tail_of (i ∷ is) = is

module _ (display : Display) where
  -- One round of the loop, when the others are safe.
  wait_round-Waited :
      (crtcs : List ℕ) (answers : List Answer) (devs : List Dev) (h : Host) (b : Bool)
      → first_pending devs ≡ b
      → Inv devs h.kernel
      → NoFailure answers
      → ((devs' : List Dev) (h' : Host)
          → Inv devs' h'.kernel
          → Safe true (Waited devs') (wait_flip display answers devs' h'))
      → Safe true (Waited devs) (elim b [
        | false ↦ ended (devs, h, events crtcs ∷ answers)
        | true ↦
            and_then
              (handle_events display crtcs devs h)
              (λ out. wait_flip display answers out.0 out.1)
      ])
  wait_round-Waited crtcs answers devs h false p i n rest = record {
    inv = i;
    ids = refl;
    idle = p;
    left = n;
  }
  wait_round-Waited crtcs answers devs h true p i n rest =
      Safe-and_then true (Waited devs) (handle_events display crtcs devs h)
        (λ out. wait_flip display answers out.0 out.1)
        (Safe-may (Kept devs) (handle_events display crtcs devs h)
          (handle_events-Kept display crtcs devs h i))
        (λ out k.
          Safe-map true (wait_flip display answers out.0 out.1)
            (λ out' w. Waited-after devs out out' k w) (rest out.0 out.1 k.inv))

  wait_end-Waited :
      (devs : List Dev) (h : Host) (b : Bool)
      → first_pending devs ≡ b
      → Inv devs h.kernel
      → Safe true (Waited devs) (if b then blocked else ended (devs, h, []))
  wait_end-Waited devs h true p i = refl
  wait_end-Waited devs h false p i = record { inv = i; ids = refl; idle = p; left = tt }

  pub wait_flip-Waited :
      (answers : List Answer) (devs : List Dev) (h : Host)
      → NoFailure answers
      → Inv devs h.kernel
      → Safe true (Waited devs) (wait_flip display answers devs h)
  unfolding wait_flip
  wait_flip-Waited [] devs h n i = wait_end-Waited devs h (first_pending devs) refl i
  wait_flip-Waited (failed ∷ answers) devs h n i = absurd n
  wait_flip-Waited (events crtcs ∷ answers) devs h n i =
      wait_round-Waited crtcs answers devs h (first_pending devs) refl i n
        (λ devs' h' i'. wait_flip-Waited answers devs' h' n i')

  -- A device that waits for nothing has no flip.
  no_flip : (k : Kernel) (d : Dev) → d.pending ≡ false → Good k d → k.flip d.dev.crtc ≡ none
  no_flip k d p g =
      (subst
        (λ b.
          Phase b (k.flip d.dev.crtc) (k.scan d.dev.crtc) (front_of d.dev).fb (back_of d.dev).fb
            d.dev.self)
        p g.phase).0

  put_back-Elsewhere :
      (d : Dev) (c : SavedCrtc) (h : Host)
      → Elsewhere c.crtc_id h.kernel (put_back display d c h).kernel
        × ((x : ℕ) → (put_back display d c h).kernel.flip x ≡ h.kernel.flip x)
  unfolding put_back
  put_back-Elsewhere d c h = go (display.sets h.world.log (restore d.dev c))
    where
      moved : Bool → Kernel
      moved b =
          if b
          then record h.kernel { scan = set_at c.crtc_id c.buffer_id h.kernel.scan }
          else h.kernel

      go :
          (b : Bool)
          → Elsewhere c.crtc_id h.kernel (moved b) × ((x : ℕ) → (moved b).flip x ≡ h.kernel.flip x)
      go true = (
        record {
          flip = λ x n. refl;
          scan = λ x n. set_at-off c.crtc_id x c.buffer_id h.kernel.scan n;
        },
        λ x. refl,
      )
      go false = (record { flip = λ x n. refl; scan = λ x n. refl }, λ x. refl)

  -- What freeing a device leaves.
  pub record Freed (d : Dev) (k : Kernel) (h' : Host) : Type 0 where
    pub elsewhere : Elsewhere d.dev.crtc k h'.kernel
    pub flip : (x : ℕ) → h'.kernel.flip x ≡ k.flip x

  pub free_dev-Freed :
      (may : Bool) (d : Dev) (h : Host)
      → Good h.kernel d
      → d.pending ≡ false
      → Safe may (Freed d h.kernel) (free_dev display d h)
  unfolding free_dev put_back
  free_dev-Freed may d h g p =
      let (c, e, q) = g.saved in
      let b = put_back-Elsewhere d c h in
      rw (e, free_dev, p)
        (record {
          elsewhere = subst (λ x. Elsewhere x h.kernel (put_back display d c h).kernel) q b.0;
          flip = b.1;
        })

  pub marked-Inv :
      (d : Dev) (devs : List Dev) (k : Kernel)
      → Inv (d ∷ devs) k
      → Inv (record d { cleanup = true } ∷ devs) k
  marked-Inv d devs k i = record {
    good =
        (record { saved = i.good.0.saved; fbs = i.good.0.fbs; phase = i.good.0.phase }, i.good.1);
    distinct = i.distinct;
    owned = i.owned;
  }

  -- The invariant without the device that was freed.
  pub Freed-Inv :
      (d : Dev) (devs : List Dev) (k : Kernel) (h' : Host)
      → Inv (d ∷ devs) k
      → d.pending ≡ false
      → Freed d k h'
      → Inv devs h'.kernel
  Freed-Inv d devs k h' i p r = record {
    good =
        Good-others d.dev.crtc k h'.kernel devs r.elsewhere
          (own_crtc (d.dev.self, d.dev.crtc) (ids_of devs) i.distinct.0) i.good.1;
    distinct = i.distinct.1;
    owned = λ c f e. elim (i.owned c f (sym (r.flip c) ∙ e)) [
      | inl q ↦
          absurd (ground (arith, sym (no_flip k d p i.good.0) ∙ ap k.flip q ∙ sym (r.flip c) ∙ e))
      | inr u ↦ u
    ];
  }

  pub Inv-Quiet : (h : Host) → Inv [] h.kernel → Quiet h
  Inv-Quiet h i c = elim (Option-cases (h.kernel.flip c)) [
    | inl e ↦ e
    | inr (f, e) ↦ absurd (i.owned c f e)
  ]

  pub length-ids_of :
      (devs devs' : List Dev) → ids_of devs' ≡ ids_of devs → length devs' ≡ length devs
  length-ids_of devs devs' e = sym (length-ids devs') ∙ ap length e ∙ length-ids devs
    where
      length-ids : (ds : List Dev) → length (ids_of ds) ≡ length ds
      length-ids [] = refl
      length-ids (d ∷ ds) = ap suc (length-ids ds)
