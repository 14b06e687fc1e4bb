-- ===== src/Proto/Lost.antt =====
-- What `Resolve` of airs/src/AsciiProtocol.cpp never returns: the plan of an object message, and a
-- message whose type word begins with certain capitals.
use airs.Base.{
  ◌≢◌, ℕ, ◌≡◌, refl, ap, ◌∙◌, ◌⊎◌, inl, inr, List, [], ◌∷◌, Bool, true, false, Option, none, some,
  arith, ◌==◌, if◌then◌else◌,
}
use airs.Base.Int.{pos}
use airs.Base.Text.{Text, is_empty}
use airs.Base.Decimal.{>>=-eq-ok, Result, ok, throw, ◌>>=◌}
use airs.Host.{Host, HostLaws}
use airs.Proto.Data.{Object, Body, Msg, ProtoBase}
use airs.Proto.Init.{object_init}
use airs.Proto.Buffer.{AsciiProtocol}
use airs.Proto.Compact.{compact_with}
use airs.Proto.Methods.{compact_object}
use airs.Proto.Pairs.{first_char, KeyVal, over_pairs}
use airs.Proto.Imaging.{set_object, resolve_object}
use airs.Proto.Resolve.{
  type_part, object_site, abort, file_focus, rain_register, slew_switch, take_track, other,
  resolve_body, pairs_of, with_base, resolve,
}

-- No plan is set.
abbrev pub NoPlan : {D : Type 0} → Object D → Type 0
NoPlan x = (x.plan_sn ≡ []) × (x.plan_type ≡ pos 0)

pick : {A : Type 0} (P : A → Type 0) (b : Bool) (x y : A) → P x → P y → P (if b then x else y)
pick P true x y p q = p
pick P false x y p q = q

module _ (h : Host) where
  set_object-NoPlan :
      (x : Object h.Double) (k v : Text) (y : Object h.Double)
      → NoPlan x
      → set_object h x k v ≡ ok y
      → NoPlan y
  unfolding set_object
  set_object-NoPlan x k v y n e = ground arith

  over_pairs-NoPlan :
      (kvs : List KeyVal) (x y : Object h.Double)
      → NoPlan x
      → over_pairs (set_object h) kvs x ≡ ok y
      → NoPlan y
  unfolding over_pairs
  over_pairs-NoPlan [] x y n e = ground arith
  over_pairs-NoPlan (kv ∷ kvs) x y n e =
      let (z, rest, first) =
        >>=-eq-ok (over_pairs (set_object h) kvs) (set_object h x kv.keyword kv.value) e in
      over_pairs-NoPlan kvs z y (set_object-NoPlan x kv.keyword kv.value z n first) rest

  resolve_object-NoPlan :
      (kvs : List KeyVal) (y : Object h.Double) → resolve_object h kvs ≡ ok y → NoPlan y
  unfolding resolve_object
  resolve_object-NoPlan kvs y e = over_pairs-NoPlan kvs (object_init h) y (refl, refl) e

  object_site-NoPlan :
      (t : Text) (kvs : List KeyVal) (y : Object h.Double)
      → object_site h t kvs ≡ ok (some (Body.object y))
      → NoPlan y
  unfolding object_site
  object_site-NoPlan t kvs y e = ground (arith, resolve_object-NoPlan kvs y)

  abort-ne-object :
      (t : Text) (kvs : List KeyVal) (y : Object h.Double)
      → abort h t kvs ≢ ok (some (Body.object y))
  unfolding abort
  abort-ne-object t kvs y e = ground arith

  file_focus-ne-object :
      (t : Text) (kvs : List KeyVal) (y : Object h.Double)
      → file_focus h t kvs ≢ ok (some (Body.object y))
  unfolding file_focus
  file_focus-ne-object t kvs y e = ground arith

  rain_register-ne-object :
      (t : Text) (kvs : List KeyVal) (y : Object h.Double)
      → rain_register h t kvs ≢ ok (some (Body.object y))
  unfolding rain_register
  rain_register-ne-object t kvs y e = ground arith

  slew_switch-ne-object :
      (t : Text) (kvs : List KeyVal) (y : Object h.Double)
      → slew_switch h t kvs ≢ ok (some (Body.object y))
  unfolding slew_switch
  slew_switch-ne-object t kvs y e = ground arith

  take_track-ne-object :
      (t : Text) (kvs : List KeyVal) (y : Object h.Double)
      → take_track h t kvs ≢ ok (some (Body.object y))
  unfolding take_track
  take_track-ne-object t kvs y e = ground arith

  other-ne-object :
      (t : Text) (kvs : List KeyVal) (y : Object h.Double)
      → other h t kvs ≢ ok (some (Body.object y))
  unfolding other
  other-ne-object t kvs y e = ground arith

  resolve_body-NoPlan :
      (t : Text) (kvs : List KeyVal) (y : Object h.Double)
      → resolve_body h t kvs ≡ ok (some (Body.object y))
      → NoPlan y
  unfolding resolve_body
  resolve_body-NoPlan t kvs y e =
      let P = λ (r : Result (Option (Body h.Double))). (r ≡ ok (some (Body.object y)) → NoPlan y) in
      let ch = first_char t in
      pick P (ch == b'a') (abort h t kvs) _ (λ e. absurd (abort-ne-object t kvs y e))
        (pick P (ch == b'f') (file_focus h t kvs) _ (λ e. absurd (file_focus-ne-object t kvs y e))
          (pick P (ch == b'o') (object_site h t kvs) _ (object_site-NoPlan t kvs y) (
            pick P (ch == b'r') (rain_register h t kvs) _
              (λ e. absurd (rain_register-ne-object t kvs y e))
              (pick P (ch == b's') (slew_switch h t kvs) _
                (λ e. absurd (slew_switch-ne-object t kvs y e))
                (pick P (ch == b't') (take_track h t kvs) (other h t kvs)
                  (λ e. absurd (take_track-ne-object t kvs y e))
                  (λ e. absurd (other-ne-object t kvs y e)))))))
        e

  with_base-eq-some :
      (c : Bool) (b : ProtoBase) (r : Result (Option (Body h.Double))) (m : Msg (Body h.Double))
      → (if c then ok none else (r >>= with_base b)) ≡ ok (some m)
      → r ≡ ok (some m.body)
  with_base-eq-some true b r m e = cc
  with_base-eq-some false b (ok none) m e = cc
  with_base-eq-some false b (ok (some x)) m e = ground arith
  with_base-eq-some false b (throw x) m e = cc

  resolve-NoPlan_body :
      (s : Text) (m : Msg (Body h.Double)) (y : Object h.Double)
      → resolve h s ≡ ok (some m)
      → m.body ≡ Body.object y
      → NoPlan y
  unfolding resolve
  resolve-NoPlan_body s m y e b =
      let class : Body h.Double → Result (Option (Body h.Double)) = λ x. ok (some x) in
      resolve_body-NoPlan (type_part s) _ y
        (with_base-eq-some (is_empty (type_part s)) _ _ m e ∙ ap class b)

  -- Whatever the line, an object message that Resolve returns has an empty plan number and plan
  -- type 0, and CompactObject does not send it on.
  pub resolve-NoPlan :
      (s : Text) (m : Msg (Body h.Double)) (y : Object h.Double) (p : AsciiProtocol) (now : Text)
      → resolve h s ≡ ok (some m)
      → m.body ≡ Body.object y
      → NoPlan y × ((compact_object h p now (some (record { base = m.base; body = y }))).out ≡ none)
  unfolding compact_object compact_with
  resolve-NoPlan s m y p now e b =
      let none_of = resolve-NoPlan_body s m y e b in (none_of, rw none_of.0)

-- The first letters of the type words that `Resolve` compares as they are, as capitals.
abbrev pub IsCapital : ℕ → Type 0
IsCapital c = (c ≡ b'A') ⊎ (c ≡ b'F') ⊎ (c ≡ b'O') ⊎ (c ≡ b'R') ⊎ (c ≡ b'S') ⊎ (c ≡ b'T')

module _ (h : Host) (l : HostLaws h) where
  resolve_body-capital :
      (c : ℕ) (t : Text) (kvs : List KeyVal) → IsCapital c → resolve_body h (c ∷ t) kvs ≡ ok none
  unfolding resolve_body other
  resolve_body-capital c t kvs (inl e) = rw e (simp l.iequals_letters)
  resolve_body-capital c t kvs (inr (inl e)) = rw e (simp l.iequals_letters)
  resolve_body-capital c t kvs (inr (inr (inl e))) = rw e (simp l.iequals_letters)
  resolve_body-capital c t kvs (inr (inr (inr (inl e)))) = rw e (simp l.iequals_letters)
  resolve_body-capital c t kvs (inr (inr (inr (inr (inl e))))) = rw e (simp l.iequals_letters)
  resolve_body-capital c t kvs (inr (inr (inr (inr (inr e))))) = rw e (simp l.iequals_letters)

  type_part-capital : (c : ℕ) (s : Text) → IsCapital c → type_part (c ∷ s) ≡ c ∷ type_part s
  unfolding type_part
  type_part-capital c s i = ground arith

  found_none :
      (c : Bool) (b : ProtoBase) (r : Result (Option (Body h.Double)))
      → r ≡ ok none
      → (if c then ok none else (r >>= with_base b)) ≡ ok none
  found_none true b r e = refl
  found_none false b r e = rw e

  -- Resolve reads no message from a line whose first character is one of the capitals A, F, O, R,
  -- S and T.
  pub resolve_capital : (c : ℕ) (s : Text) → IsCapital c → resolve h (c ∷ s) ≡ ok none
  unfolding resolve
  resolve_capital c s i =
      found_none (is_empty (type_part (c ∷ s)))
        (record ((pairs_of h (c ∷ s)).1) { type = type_part (c ∷ s) }) _
        (ap (λ (t : Text). resolve_body h t (pairs_of h (c ∷ s)).0) (type_part-capital c s i)
          ∙ resolve_body-capital c (type_part s) (pairs_of h (c ∷ s)).0 i)
