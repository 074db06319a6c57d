-- ===== src/Atomic/Output/Prepare.antt =====
-- `modeset_prepare` of perftools/X/drm-howto/modeset-atomic.c gives back what the outputs do not
-- hold.
use debian_config_files.Base.{
  Bool, ℕ, ◌+◌, ◌≡◌, ◌≢◌, refl, false, Option, none, some, List, [], ◌∷◌, arith, All,
}
use debian_config_files.Modeset.Kernel.{
  Resources, Reply, done, fail, Resource, resources, connector, descriptor,
}
use debian_config_files.Modeset.Kernel.Balance.{same, same-off}
use debian_config_files.Modeset.Setup.{Status, ok, err}
use debian_config_files.Atomic.Program.{Card, Machine}
use debian_config_files.Atomic.Program.Owns.{
  Meets, Meets-map, Owns, Owns-bind, Owns-next, Owns-pure, Owns-look, Owns-same, Owns-fetch,
  Owns-get, Owns-give, Owns-refuse,
}
use debian_config_files.Atomic.Objects.Balance.{Known}
use debian_config_files.Atomic.Choice.Balance.{IsNew}
use debian_config_files.Atomic.Output.{
  Output, crtcs_of, link, finish_prepare, prepare_connector, prepare_connectors, prepare_from,
  prepare,
}
use debian_config_files.Atomic.Output.Objects.{IsReady}
use debian_config_files.Atomic.Output.Balance.{held_outs, held_made, MadeWith, output_create-Owns}

held-link :
    (r : Resource) (made : Option Output) (outs : List Output)
    → held_outs r (link made outs) ≡ held_made r made + held_outs r outs
unfolding link
held-link r none outs = omega arith
held-link r (some out) outs = refl

-- No two CRTCs are the same, and none is 0.
abbrev pub AllNew : List ℕ → Type 0
AllNew [] = Unit
AllNew (c ∷ crtcs) = IsNew crtcs c × AllNew crtcs

-- The objects of the outputs are there, and each has a CRTC of its own.
pub record AreSetUp (outs : List Output) : Type 0 where
  pub ready : All IsReady outs
  pub new : AllNew (crtcs_of outs)

link-SetUp :
    (made : Option Output) (outs : List Output)
    → MadeWith (IsNew (crtcs_of outs)) made
    → AreSetUp outs
    → AreSetUp (link made outs)
unfolding link
link-SetUp none outs h k = k
link-SetUp (some out) outs h k = record { ready = (h.0, k.ready); new = (h.1, k.new) }

-- When `modeset_prepare` returns, the outputs are set up and there is one; after an error there are
-- none.
abbrev pub Prepared : Status × List Output → Type 0
Prepared (ok, outs) = AreSetUp outs × (outs ≢ [])
Prepared (err e, outs) = outs ≡ []

module _ (card : Card) (known : Known card) (w : Bool) (r : Resource) (n : ℕ) where
  prepare_connector-Owns :
      (res : Resources) (id : ℕ) (outs : List Output)
      → AreSetUp outs
      → Owns w r
          (held_outs r outs + n)
          (prepare_connector card res id outs)
          (λ outs'. held_outs r outs' + n)
          AreSetUp
  unfolding prepare_connector
  prepare_connector-Owns res id outs h =
      Owns-fetch w r _ (λ c. connector c.connector_id) (card.drm.get_connector id)
        (λ _. Owns-pure w r _ refl h)
        (λ c _. Owns-bind w r (output_create-Owns card known w r _ (crtcs_of outs) res c) (λ made k.
          Owns-next w r
            (Owns-same w r (omega arith) (λ _ _. (refl, tt))
              (Owns-give w r (held_made r made + (held_outs r outs + n))
                (connector c.connector_id)))
            (Owns-pure w r _ (let e = held-link r made outs in omega arith)
              (link-SetUp made outs k h))))

  prepare_connectors-Owns :
      (res : Resources) (ids : List ℕ) (outs : List Output)
      → AreSetUp outs
      → Owns w r
          (held_outs r outs + n)
          (prepare_connectors card res ids outs)
          (λ outs'. held_outs r outs' + n)
          AreSetUp
  unfolding prepare_connectors
  prepare_connectors-Owns res [] outs h = Owns-pure w r _ refl h
  prepare_connectors-Owns res (id ∷ ids) outs h =
      Owns-bind w r (prepare_connector-Owns res id outs h) (prepare_connectors-Owns res ids)

  finish_prepare-Owns :
      (outs : List Output)
      → same r resources ≡ 0
      → AreSetUp outs
      → Owns w r
          (held_outs r outs + n)
          (finish_prepare outs)
          (λ out. held_outs r out.1 + n)
          Prepared
  unfolding finish_prepare
  finish_prepare-Owns [] z h = Owns-pure w r _ refl refl
  finish_prepare-Owns (out ∷ outs) z h =
      Owns-next w r
        (Owns-same w r (omega arith) (λ _ _. (refl, tt))
          (Owns-give w r (held_outs r (out ∷ outs) + n) resources))
        (Owns-pure w r _ refl (h, λ e. cc))

module _ (card : Card) (known : Known card) (w : Bool) (r : Resource) (n : ℕ) where
  prepare_from-Owns :
      (reply : Reply Resources)
      → same r resources ≡ 0
      → Owns w r n (prepare_from card reply) (λ out. held_outs r out.1 + n) Prepared
  unfolding prepare_from
  prepare_from-Owns (fail e) z =
      Owns-next w r (Owns-refuse w r n) (Owns-pure w r _ (omega arith) refl)
  prepare_from-Owns (done res) z = Owns-next w r (Owns-get w r n resources) (
      Owns-bind w r
        (Owns-same w r (omega arith) (λ outs h. (refl, h))
          (prepare_connectors-Owns card known w r n res res.connectors []
            (record { ready = tt; new = tt })))
        (λ outs h. finish_prepare-Owns card known w r n outs z h))

  pub prepare-Owns :
      same r resources ≡ 0 → Owns w r n (prepare card) (λ out. held_outs r out.1 + n) Prepared
  unfolding prepare
  prepare-Owns z =
      Owns-bind w r (Owns-look w r n card.drm.get_resources) (λ reply _. prepare_from-Owns reply z)

-- If the kernel describes each property that it lists and lists the properties of each plane,
-- `modeset_prepare` reads no null pointer. When it succeeds there is an output, each output has the
-- properties of its connector, CRTC and plane, and no two outputs drive one CRTC; when it fails
-- there is none.
pub prepare-Prepared :
    (card : Card) (known : Known card) (m : Machine)
    → Meets false (λ out _. Prepared out) (prepare card m)
prepare-Prepared card known m =
    Meets-map false (prepare card m) (λ out m' g. g.1)
      ((prepare-Owns card known false (descriptor 0) 0
          (same-off (descriptor 0) resources (λ e. cc))).runs
        m m.world.log 0 (omega arith))
