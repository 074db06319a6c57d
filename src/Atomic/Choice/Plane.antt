-- ===== src/Atomic/Choice/Plane.antt =====
-- What `modeset_find_plane` of perftools/X/drm-howto/modeset-atomic.c picks, and that it frees what
-- it gets.
use Prim.Native.String.{String}
use debian_config_files.Base.{
  ℕ, ◌≡◌, refl, sym, ap, subst, ◌==◌, Bool, true, false, Option, none, some, List, [], ◌∷◌, arith,
  All, some_inj, ◌∙◌,
}
use debian_config_files.Modeset.Kernel.{Resource, plane, plane_list, properties, enoent}
use debian_config_files.Modeset.Crtc.{test_bit}
use debian_config_files.Modeset.Setup.{Status, ok, err}
use debian_config_files.Atomic.Program.{
  Properties, Plane, plane_type, Card, einval, ◌>>=◌, look, Machine,
}
use debian_config_files.Atomic.Program.Owns.{
  Meets, Meets-map, Owns, Owns-bind, Owns-next, Owns-pure, Owns-look, Owns-same, Owns-fetch,
  Owns-give, Owns-test,
}
use debian_config_files.Atomic.Objects.Balance.{
  Known, Reads, absent, here, there, get_property_value-Owns,
}
use debian_config_files.Atomic.Choice.{
  Route, is_primary, try_plane, scan_planes, take_plane, find_among, find_plane,
}

-- A plane that a CRTC with this index can use, whose type is that of a primary plane.
pub record Suits (card : Card) (crtc_index id : ℕ) : Type 0 where
  pub card_plane : Plane
  pub known : card.get_plane id ≡ some card_plane
  pub usable : test_bit card_plane.possible_crtcs crtc_index ≡ true
  pub props : Properties
  pub listed : card.object_properties plane_type id ≡ some props
  pub primary : Reads card "type" props card.primary_plane

-- A test that finds out whether `P` holds.
abbrev pub Tells : Type 0 → Bool → Type 0
Tells P true = P
Tells P false = ¬ P

-- A first element of a list with `P`.
pub data First (P : ℕ → Type 0) : List ℕ → ℕ → Type 0 where
  head : {x : ℕ} {xs : List ℕ} → P x → First P (x ∷ xs) x
  tail : {x y : ℕ} {xs : List ℕ} → ¬ P x → First P xs y → First P (x ∷ xs) y

abbrev pub Finds : (ℕ → Type 0) → List ℕ → Option ℕ → Type 0
Finds P xs none = All (λ x. ¬ P x) xs
Finds P xs (some x) = First P xs x

-- What `modeset_find_plane` does of a list of planes.
abbrev pub PicksPlane : Card → Route → Option (List ℕ) → Status × Route → Type 0
PicksPlane card route none made = made ≡ (err enoent, route)
PicksPlane card route (some planes) (ok, route') =
    First (Suits card route.crtc_index) planes route'.plane
    × (route' ≡ record route { plane = route'.plane })
PicksPlane card route (some planes) (err e, route') =
    All (λ id. ¬ Suits card route.crtc_index id) planes × (e ≡ einval) × (route' ≡ route)

Finds-cons :
    (P : ℕ → Type 0) (x : ℕ) (xs : List ℕ) (o : Option ℕ)
    → ¬ P x
    → Finds P xs o
    → Finds P (x ∷ xs) o
Finds-cons P x xs none h f = (h, f)
Finds-cons P x xs (some y) h f = tail h f

Reads-unique :
    (card : Card) (name : String) (props : Properties) (v w : ℕ)
    → Reads card name props v
    → Reads card name props w
    → v ≡ w
Reads-unique card name props v w absent absent = refl
Reads-unique card name props v w (here e q) (here e' q') = refl
Reads-unique card name props v w (here e q) (there e' q' k) = absurd (ground arith)
Reads-unique card name props v w (there e q k) (here e' q') = absurd (ground arith)
Reads-unique card name props v w (there e q k) (there e' q' k') = Reads-unique card name _ v w k k'

module _ (card : Card) (w : Bool) (r : Resource) (known : Known card) where
  is_primary-Owns :
      (n id : ℕ) (p : Plane)
      → card.get_plane id ≡ some p
      → Owns w r n
          (is_primary card id)
          (λ _. n)
          (λ b.
            (props : Properties) × (v : ℕ) × (card.object_properties plane_type id ≡ some props)
            × Reads card "type" props v
            × (b ≡ (v == card.primary_plane)))
  unfolding is_primary
  is_primary-Owns n id p h =
      Owns-fetch w r _ (λ _. properties id) (card.object_properties plane_type id)
        (λ e. absurd (known.plane id p h e))
        (λ props e.
          Owns-bind w r
            (get_property_value-Owns card w r "type" props _ (known.listed _ id props e))
            (λ value k.
              Owns-next w r (Owns-give w r n _) (Owns-pure w r _ refl (props, value, e, k, refl))))

  Suits-Tells :
      (crtc_index id v : ℕ) (p : Plane) (props : Properties) (b : Bool)
      → card.get_plane id ≡ some p
      → test_bit p.possible_crtcs crtc_index ≡ true
      → card.object_properties plane_type id ≡ some props
      → Reads card "type" props v
      → b ≡ (v == card.primary_plane)
      → Tells (Suits card crtc_index id) b
  Suits-Tells crtc_index id v p props true e u q k d =
      let same : v ≡ card.primary_plane = ground arith in
      record {
        card_plane = p;
        known = e;
        usable = u;
        props = props;
        listed = q;
        primary = subst (Reads card "type" props) same k;
      }
  Suits-Tells crtc_index id v p props false e u q k d = λ s.
      let same : s.props ≡ props = some_inj (sym s.listed ∙ q) in
      let value =
        Reads-unique card "type" props v card.primary_plane k
          (subst (λ ps. Reads card "type" ps card.primary_plane) same s.primary) in
      ground arith

  unusable :
      (crtc_index id : ℕ) (p : Plane)
      → card.get_plane id ≡ some p
      → test_bit p.possible_crtcs crtc_index ≡ false
      → ¬ Suits card crtc_index id
  unusable crtc_index id p e u s =
      let same : s.card_plane ≡ p = some_inj (sym s.known ∙ e) in
      let usable : test_bit p.possible_crtcs crtc_index ≡ true =
        subst (λ q. test_bit q.possible_crtcs crtc_index ≡ true) same s.usable in
      ground arith

  try_plane-Owns :
      (n crtc_index id : ℕ)
      → Owns w r n (try_plane card crtc_index id) (λ _. n) (Tells (Suits card crtc_index id))
  unfolding try_plane
  try_plane-Owns n crtc_index id =
      Owns-fetch w r _ (λ _. plane id) (card.get_plane id)
        (λ e. Owns-pure w r _ refl (λ s. (let k = s.known in ground arith)))
        (λ p e.
          Owns-test w r (test_bit p.possible_crtcs crtc_index)
            (λ u. Owns-bind w r (is_primary-Owns _ id p e) (λ primary (props, v, q, k, d).
              Owns-next w r (Owns-give w r n _)
                (Owns-pure w r _ refl (Suits-Tells crtc_index id v p props primary e u q k d))))
            (λ u.
              Owns-next w r (Owns-give w r n _)
                (Owns-pure w r _ refl (unusable crtc_index id p e u))))

  -- What follows a plane in the loop, once it is known whether it suits.
  scan_planes-Owns :
      (n crtc_index : ℕ) (planes : List ℕ)
      → Owns w r n
          (scan_planes card crtc_index planes)
          (λ _. n)
          (Finds (Suits card crtc_index) planes)
  unfolding scan_planes
  scan_planes-Owns n crtc_index [] = Owns-pure w r _ refl tt
  scan_planes-Owns n crtc_index (id ∷ planes) =
      Owns-bind w r (try_plane-Owns n crtc_index id) (λ primary t.
        Owns-test w r primary (λ q. Owns-pure w r _ refl (head (subst (Tells _) q t)))
          (λ q.
            Owns-same w r refl
              (λ found f. (refl, Finds-cons _ id planes found (subst (Tells _) q t) f))
              (scan_planes-Owns n crtc_index planes)))

  take_plane-PicksPlane :
      (route : Route) (ids : List ℕ) (found : Option ℕ)
      → Finds (Suits card route.crtc_index) ids found
      → PicksPlane card route (some ids) (take_plane route found)
  unfolding take_plane
  take_plane-PicksPlane route ids none f = (f, refl, refl)
  take_plane-PicksPlane route ids (some id) f = (f, refl)

  find_among-Owns :
      (n : ℕ) (route : Route) (planes : Option (List ℕ))
      → Owns w r n (find_among card route planes) (λ _. n) (PicksPlane card route planes)
  unfolding find_among
  find_among-Owns n route planes =
      Owns-fetch w r _ (λ _. plane_list) planes
        (λ e.
          Owns-pure w r _ refl
            (subst (λ o. PicksPlane card route o (err enoent, route)) (sym e) refl))
        (λ ids e. Owns-bind w r (scan_planes-Owns _ route.crtc_index ids) (λ found f.
          Owns-next w r (Owns-give w r n _) (
            Owns-pure w r _ refl (
              subst (λ o. PicksPlane card route o (take_plane route found)) (sym e)
                (take_plane-PicksPlane route ids found f)))))

  PicksPlane-crtc :
      (route : Route) (planes : Option (List ℕ)) (made : Status × Route)
      → PicksPlane card route planes made
      → made.1.crtc ≡ route.crtc
  PicksPlane-crtc route none made h = ap (λ q. q.1.crtc) h
  PicksPlane-crtc route (some ids) (ok, route') h = ap (λ q. q.crtc) h.1
  PicksPlane-crtc route (some ids) (err e, route') h = ap (λ q. q.crtc) h.2

  -- The choice of a plane leaves the CRTC.
  pub find_plane-Owns :
      (n : ℕ) (route : Route)
      → Owns w r n (find_plane card route) (λ _. n) (λ made. made.1.crtc ≡ route.crtc)
  unfolding find_plane
  find_plane-Owns n route = Owns-bind w r (Owns-look w r n card.get_planes) (λ planes _.
      Owns-same w r refl (λ made h. (refl, PicksPlane-crtc route planes made h))
        (find_among-Owns n route planes))

-- `modeset_find_plane` reads no null pointer, where the kernel describes each property that it
-- lists and lists those of each plane. It gives the first plane, in the kernel's order, that the
-- CRTC with the route's index can use and whose property "type" is that of a primary plane; where no
-- plane is such a plane it answers `EINVAL`, and where there is no list of planes `ENOENT`, its only
-- errors; nothing else of the route changes.
pub find_plane-PicksPlane :
    (card : Card) (known : Known card) (route : Route) (m : Machine)
    → Meets false
        (λ made _. PicksPlane card route (card.get_planes m.world.log) made)
        (find_plane card route m)
unfolding find_plane ◌>>=◌ look
find_plane-PicksPlane card known route m =
    Meets-map false (find_among card route (card.get_planes m.world.log) m) (λ made m' g. g.1)
      ((find_among-Owns card false plane_list known 0 route (card.get_planes m.world.log)).runs m
        m.world.log 0 (omega arith))
