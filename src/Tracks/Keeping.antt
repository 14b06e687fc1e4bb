-- ===== src/Tracks/Keeping.antt =====
-- What the operations of pv_candidate in airs/src/AFindPV.h do to the counters of the points.
use airs.Base.{
  ℕ, ◌+◌, ◌≡◌, ◌<◌, ◌≤◌, refl, subst, List, [], ◌∷◌, ◌++◌, Bool, true, false, Option, none, some,
  if◌then◌else◌, arith, length, All, All-append, length-append,
}
use airs.Doubles.{Doubles}
use airs.Base.Faults.{Returns, Returns-some, >>=-Returns}
use airs.Tracks.Points.{Store, inc_rel}
use airs.Tracks.Candidate.{
  Candidate, last_point, rd_expect, is_expect, add_point, closest, chosen, join, update_candidate,
}
use airs.Tracks.Matching.{is_set}
use airs.Tracks.Sequence.{add_points}
use airs.Tracks.Counts.{shared, Counts, Counts-ext, inc_rel-Counts, shared-join}

abbrev pub Below : ℕ → List ℕ → Type 0
Below n qs = All (λ q. q < n) qs

-- Two points at least, and only points that are made.
pub record IsGood {D : Type 0} (n : ℕ) (c : Candidate D) : Type 0 where
  pub two : 2 ≤ length c.pts
  pub made : Below n c.pts
  pub unsure : Below n c.frmu

pub last_point-Returns :
    {A : Type 0} (P : A → Type 0) (a : A) (xs : List A)
    → All P (a ∷ xs)
    → Returns P (last_point (a ∷ xs))
unfolding last_point
last_point-Returns P a [] (p, ps) = p
last_point-Returns P a (b ∷ xs) (p, ps) =
    elim (last_point (b ∷ xs))
        as (λ o. Returns P o → Returns P (elim o [ none ↦ some a | some q ↦ some q ])) [
          | none ↦ λ r. absurd r
          | some q ↦ λ r. r
        ]
      (last_point-Returns P b xs ps)

module _ (m : Doubles) where
  abbrev D : Type 0
  D = m.real.Double

  -- A good candidate has a last point.
  pub last-IsGood : (n : ℕ) (c : Candidate D) → IsGood n c → Returns (λ q. q < n) (last_point c.pts)
  last-IsGood n c g = from c.pts g.two g.made
    where
      from : (pts : List ℕ) → 2 ≤ length pts → Below n pts → Returns (λ q. q < n) (last_point pts)
      from [] h a = absurd (omega arith)
      from (p ∷ ps) h a = last_point-Returns _ p ps a

  rd_expect-Returns :
      (n : ℕ) (st : Store D) (t : D) (c : Candidate D)
      → IsGood n c
      → Returns (λ e. Unit {0}) (rd_expect m st t c)
  unfolding rd_expect
  rd_expect-Returns n st t c g =
      let (l, e, h) = Returns-some (λ q. q < n) (last_point c.pts) (last-IsGood n c g) in
      rw (e, rd_expect) tt

  abbrev either : Bool → ℕ → Candidate D → Candidate D
  either near p c = if near then record c { frmu = c.frmu ++ p ∷ [] } else c

  either-IsGood :
      (near : Bool) (n p : ℕ) (c : Candidate D)
      → p < n
      → IsGood n c
      → IsGood n (either near p c) × ((either near p c).pts ≡ c.pts)
  either-IsGood true n p c h g = (
    record {
      two = g.two;
      made = g.made;
      unsure = All-append c.frmu (p ∷ []) (λ q. q < n) (h, tt) g.unsure;
    },
    refl,
  )
  either-IsGood false n p c h g = (g, refl)

  add_point-Returns :
      (n p : ℕ) (st : Store D) (c : Candidate D)
      → p < n
      → IsGood n c
      → Returns (λ d. IsGood n d × (d.pts ≡ c.pts)) (add_point m st p c)
  unfolding add_point is_expect
  add_point-Returns n p st c h g =
      let (e, eq, _) =
        Returns-some (λ e. Unit {0}) (rd_expect m st (st.cell p).mjd c)
          (rd_expect-Returns n st (st.cell p).mjd c g) in
      rw (eq, add_point, is_expect) (either-IsGood _ n p c h g)

  pub add_points-Returns :
      (n : ℕ) (ps : List ℕ) (st : Store D) (c : Candidate D)
      → Below n ps
      → IsGood n c
      → Returns (λ d. IsGood n d × (d.pts ≡ c.pts)) (add_points m st ps c)
  unfolding add_points
  add_points-Returns n [] st c a g = (g, refl)
  add_points-Returns n (p ∷ ps) st c (h, a) g =
      >>=-Returns (λ d. IsGood n d × (d.pts ≡ c.pts)) (λ d. IsGood n d × (d.pts ≡ c.pts))
        (if is_set (st.cell p).matched then some c else add_point m st p c)
        (λ d. add_points m st ps d) (one (is_set (st.cell p).matched))
        (λ d k.
          subst (λ z. Returns (λ x. IsGood n x × (x.pts ≡ z)) (add_points m st ps d)) k.1
            (add_points-Returns n ps st d a k.0))
    where
      one :
          (matched : Bool)
          → Returns
              (λ d. IsGood n d × (d.pts ≡ c.pts))
              (if matched then some c else add_point m st p c)
      one true = (g, refl)
      one false = add_point-Returns n p st c h g

  -- The point chosen is one that is made, or there is none.
  abbrev Chosen : ℕ → Option ℕ → Type 0
  Chosen n none = Unit
  Chosen n (some p) = p < n

  if-Chosen :
      (less : Bool) (n p : ℕ) (o : Option ℕ)
      → p < n
      → Chosen n o
      → Chosen n (if less then some p else o)
  if-Chosen true n p o h f = h
  if-Chosen false n p o h f = f

  closest-Chosen :
      (n : ℕ) (ps : List ℕ) (st : Store D) (e : D × D) (best : D) (found : Option ℕ)
      → Below n ps
      → Chosen n found
      → Chosen n (closest m st e best found ps)
  unfolding closest
  closest-Chosen n [] st e best found a f = f
  closest-Chosen n (p ∷ ps) st e best found (h, a) f =
      closest-Chosen n ps st e _ _ a (if-Chosen _ n p found h f)

  chosen-from :
      (n : ℕ) (frmu : List ℕ) (st : Store D) (c : Candidate D)
      → IsGood n (record c { frmu = frmu })
      → Returns (Chosen n) (chosen m st (record c { frmu = frmu }))
  unfolding chosen
  chosen-from n [] st c g = tt
  chosen-from n (p ∷ []) st c g = g.unsure.0
  chosen-from n (p ∷ q ∷ ps) st c g =
      let (e, eq, _) =
        Returns-some (λ e. Unit {0})
          (rd_expect m st (st.cell p).mjd (record c { frmu = p ∷ q ∷ ps }))
          (rd_expect-Returns n st (st.cell p).mjd (record c { frmu = p ∷ q ∷ ps }) g) in
      rw (eq, chosen) (closest-Chosen n (p ∷ q ∷ ps) st e _ none g.unsure tt)

  join-IsGood :
      (n l p : ℕ) (st : Store D) (c : Candidate D) → p < n → IsGood n c → IsGood n (join m st l p c)
  unfolding join
  join-IsGood n l p st c h g = record {
    two = omega (arith, length-append c.pts (p ∷ []), g.two);
    made = All-append c.pts (p ∷ []) (λ q. q < n) (h, tt) g.made;
    unsure = tt;
  }

  joined-Counts :
      (n : ℕ) (u : ℕ → ℕ) (l p : ℕ) (st : Store D) (c : Candidate D)
      → IsGood n c
      → Counts n (λ q. shared q c.pts + u q) st
      → Counts n (λ q. shared q (join m st l p c).pts + u q) (inc_rel p st)
  unfolding join
  joined-Counts n u l p st c g k =
      Counts-ext n _ _ _ (λ q. omega (arith, shared-join q p c.pts g.two))
        (inc_rel-Counts n (λ q. shared q c.pts + u q) p st k)

  pub update-Returns :
      (n : ℕ) (u : ℕ → ℕ) (st : Store D) (c : Candidate D)
      → IsGood n c
      → Counts n (λ p. shared p c.pts + u p) st
      → Returns
          (λ r. IsGood n r.0 × Counts n (λ p. shared p r.0.pts + u p) r.1)
          (update_candidate m c st)
  unfolding update_candidate
  update-Returns n u st c g k =
      let (found, e, h) = Returns-some (Chosen n) (chosen m st c) (chosen-from n c.frmu st c g) in
      from found e h
    where
      from :
          (found : Option ℕ)
          → chosen m st c ≡ some found
          → Chosen n found
          → Returns
              (λ r. IsGood n r.0 × Counts n (λ p. shared p r.0.pts + u p) r.1)
              (update_candidate m c st)
      from none e h = rw (e, update_candidate) (g, k)
      from (some p) e h =
          let (l, el, _) = Returns-some (λ q. q < n) (last_point c.pts) (last-IsGood n c g) in
          rw (e, el, update_candidate) (join-IsGood n l p st c h g, joined-Counts n u l p st c g k)
