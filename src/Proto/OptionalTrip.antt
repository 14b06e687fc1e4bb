-- ===== src/Proto/OptionalTrip.antt =====
-- The messages of airs/src/AsciiProtocol.cpp that leave fields out under a condition: guide, slit and
-- object. A field that is not sent keeps the value of the constructor.
use mathlib.Core.Path.{ap₂}
use airs.Base.{
  ◌≡◌, refl, List, [], Bool, true, false, ◌&&◌, ◌||◌, map, All, Option, some, ap, ◌∙◌, arith,
  if◌then◌else◌, not, Bool-cases, inl, inr,
}
use airs.Base.Int.{ℤ, pos, negsuc, eqb_ℤ, eqb_ℤ→eq}
use airs.Base.Text.{Text, codes}
use airs.Base.Decimal.{Result, ok}
use airs.Host.{Host, HostLaws}
use airs.Proto.Device.{int_min}
use airs.Proto.Data.{Body, Guide, Slit, Object, aptype_guide, aptype_slit, aptype_object}
use airs.Proto.Wire.{pair}
use airs.Proto.Pairs.{over_pairs}
use airs.Proto.Fields.{guide_fields, slit_fields, object_fields, object_list}
use airs.Proto.Pointing.{resolve_guide}
use airs.Proto.Imaging.{set_slit, resolve_slit, set_object, resolve_object}
use airs.Proto.Compact.{Field, field_if, valid_ra, valid_dec}
use airs.Proto.Resolve.{object_site, other, slew_switch, resolve_body, wrap}
use airs.Proto.Sent.{IsGood, All-field_if}
use airs.Proto.Numbers.{print_int-IsWord, stoi-print_int}
use airs.Proto.Received.{Sendable, received}
use airs.Proto.Init.{object_init, slit_init}

-- A field under a condition, in the loop over the pairs.
over_pairs-field_if :
    {X : Type 0} (step : X → Text → Text → Result X) (b : Bool) (f : Field) (fs : List Field)
    (x y : X)
    → step x f.0 f.1 ≡ ok y
    → over_pairs step (map pair (field_if b f fs)) x
      ≡ over_pairs step (map pair fs) (if b then y else x)
unfolding over_pairs field_if
over_pairs-field_if step true f fs x y e = rw e
over_pairs-field_if step false f fs x y e = refl

unset : (z : ℤ) → (if not (eqb_ℤ z int_min) then z else int_min) ≡ z
unset z = elim (Bool-cases (eqb_ℤ z int_min)) [
  | inl e ↦ rw e (ap (λ (w : ℤ). w) (eqb_ℤ→eq int_min z (ground arith)))
  | inr e ↦ rw e
]

module _ (h : Host) (l : HostLaws h) where
  pub guide_fields-IsGood :
      (x : Guide h.Double) → Sendable h l (Body.guide x) → All IsGood (guide_fields h x)
  unfolding guide_fields
  guide_fields-IsGood x s = (
    (refl, l.print_double-IsWord x.ra),
    (
      (refl, l.print_double-IsWord x.dec),
      All-field_if IsGood _ _ _ (refl, l.print_double-IsWord x.objra)
          (All-field_if IsGood _ _ [] (refl, l.print_double-IsWord x.objdec) tt),
    ),
  )

  pub resolve-guide_fields :
      (x : Guide h.Double)
      → Sendable h l (Body.guide x)
      → resolve_body h aptype_guide (map pair (guide_fields h x))
        ≡ ok (some (received h l (Body.guide x)))
  unfolding resolve_body other resolve_guide guide_fields field_if
  resolve-guide_fields x s = elim (Bool-cases (valid_ra h x.objra && valid_dec h x.objdec)) [
    | inl e ↦ rw e (
        simp (
          l.iequals_letters,
          l.stod-print_double x.ra s.1,
          l.stod-print_double x.dec s.2,
          l.stod-print_double x.objra s.3,
          l.stod-print_double x.objdec s.4,
        ))
    | inr e ↦
        rw e (simp (l.iequals_letters, l.stod-print_double x.ra s.1, l.stod-print_double x.dec s.2))
  ]

  pub slit_fields-IsGood : (x : Slit) → Sendable h l (Body.slit x) → All IsGood (slit_fields h x)
  unfolding slit_fields
  slit_fields-IsGood x s =
      All-field_if IsGood _ _ _ (refl, print_int-IsWord h l x.state)
        (All-field_if IsGood _ _ _ (refl, print_int-IsWord h l x.command)
          (All-field_if IsGood _ _ [] (refl, print_int-IsWord h l x.enable) tt))

  -- The loop over the fields of a slit message, whichever of them were sent.
  slit_loop :
      (b c d : Bool) (x : Slit)
      → Sendable h l (Body.slit x)
      → over_pairs
          (set_slit h)
          (map pair (
            field_if b
              (codes "state", h.print_int x.state)
              (field_if c
                (codes "command", h.print_int x.command)
                (field_if d (codes "enable", h.print_int x.enable) []))))
          slit_init
        ≡ ok (record x {
          state = if b then x.state else int_min;
          command = if c then x.command else int_min;
          enable = if d then x.enable else negsuc 0;
        })
  unfolding over_pairs set_slit field_if
  slit_loop b c d x s = ground (
    arith,
    l.iequals_letters (codes "state") (codes "state"),
    l.iequals_letters (codes "command") (codes "state"),
    l.iequals_letters (codes "command") (codes "command"),
    l.iequals_letters (codes "enable") (codes "state"),
    l.iequals_letters (codes "enable") (codes "command"),
    l.iequals_letters (codes "enable") (codes "enable"),
    stoi-print_int h l x.state s.0,
    stoi-print_int h l x.command s.1,
    stoi-print_int h l x.enable s.2,
  )

  abbrev slit_of : Slit → Result (Option (Body h.Double))
  slit_of x = ok (some (Body.slit x))

  pub resolve-slit_fields :
      (x : Slit)
      → Sendable h l (Body.slit x)
      → resolve_body h aptype_slit (map pair (slit_fields h x))
        ≡ ok (some (received h l (Body.slit x)))
  unfolding resolve_body slew_switch resolve_slit slit_fields
  resolve-slit_fields x s = simp l.iequals_letters (
      ap (wrap Body.slit) (slit_loop _ _ _ x s)
      ∙ ap₂
          (λ (a b : ℤ). slit_of (record x {
            state = a;
            command = b;
            enable =
                if eqb_ℤ x.enable (pos 0) || eqb_ℤ x.enable (pos 1) then x.enable else negsuc 0;
          }))
          (unset x.state) (unset x.command))

  pub object_fields-IsGood :
      (x : Object h.Double) → Sendable h l (Body.object x) → All IsGood (object_fields h x)
  unfolding object_fields
  object_fields-IsGood x s = (
    (refl, print_int-IsWord h l x.plan_type),
    (
      (refl, s.0),
      (
        (refl, s.1),
        (
          (refl, s.2),
          (
            (refl, s.3),
            All-field_if IsGood _ _ _ (refl, l.print_double-IsWord x.raobj)
                (All-field_if IsGood _ _ _ (refl, l.print_double-IsWord x.decobj)
                  (
                    (refl, s.6),
                    (
                      (refl, s.7),
                      (
                        (refl, print_int-IsWord h l x.iimgtyp),
                        (
                          (refl, l.print_double-IsWord x.expdur),
                          ((refl, print_int-IsWord h l x.frmcnt), tt),
                        ),
                      ),
                    ),
                  )),
          ),
        ),
      ),
    ),
  )

  -- The loop over the fields of an object message, whichever coordinates were sent. `plan_type` and
  -- `plan_sn` are among the fields, and are not read.
  object_loop :
      (b c : Bool) (x : Object h.Double)
      → Sendable h l (Body.object x)
      → over_pairs (set_object h) (map pair (object_list h b c x)) (object_init h)
        ≡ ok (record x {
          plan_type = pos 0;
          plan_sn = [];
          raobj = if b then l.rounded x.raobj else h.of_int (negsuc 999);
          decobj = if c then l.rounded x.decobj else h.of_int (negsuc 999);
          expdur = l.rounded x.expdur;
        })
  unfolding over_pairs set_object field_if
  object_loop true true x s = simp (
    l.iequals_letters,
    l.stod-print_double x.raobj s.4,
    l.stod-print_double x.decobj s.5,
    stoi-print_int h l x.iimgtyp s.8,
    l.stod-print_double x.expdur s.9,
    stoi-print_int h l x.frmcnt s.10,
  )
  object_loop true false x s = simp (
    l.iequals_letters,
    l.stod-print_double x.raobj s.4,
    stoi-print_int h l x.iimgtyp s.8,
    l.stod-print_double x.expdur s.9,
    stoi-print_int h l x.frmcnt s.10,
  )
  object_loop false true x s = simp (
    l.iequals_letters,
    l.stod-print_double x.decobj s.5,
    stoi-print_int h l x.iimgtyp s.8,
    l.stod-print_double x.expdur s.9,
    stoi-print_int h l x.frmcnt s.10,
  )
  object_loop false false x s = simp (
    l.iequals_letters,
    stoi-print_int h l x.iimgtyp s.8,
    l.stod-print_double x.expdur s.9,
    stoi-print_int h l x.frmcnt s.10,
  )

  pub resolve-object_fields :
      (x : Object h.Double)
      → Sendable h l (Body.object x)
      → resolve_body h aptype_object (map pair (object_fields h x))
        ≡ ok (some (received h l (Body.object x)))
  unfolding resolve_body object_site resolve_object object_fields
  resolve-object_fields x s =
      rw (l.iequals_letters aptype_object aptype_object)
        (ap (wrap Body.object) (object_loop (valid_ra h x.raobj) (valid_dec h x.decobj) x s))
