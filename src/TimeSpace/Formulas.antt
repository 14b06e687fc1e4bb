-- ===== src/TimeSpace/Formulas.antt =====
-- The formulas of airs/src/ATimeSpace.cpp as functions of their arguments. The doubles and their
-- functions are a parameter.
use airs.Base.{Bool, List, [], ◌∷◌, if◌then◌else◌}
use airs.Base.Int.{ℤ}
use airs.TimeSpace.NutationTerms.{Term, nutation_terms}
use Prim.Native.String.{String}

-- double, with the literals of the source by their texts.
pub record Real : Type 1 where
  pub Double : Type 0
  pub lit : String → Double
  pub of_int : ℤ → Double
  pub add : Double → Double → Double
  pub sub : Double → Double → Double
  pub mul : Double → Double → Double
  pub div : Double → Double → Double
  pub floor : Double → Double
  pub sin : Double → Double
  pub cos : Double → Double
  pub asin : Double → Double
  pub atan2 : Double → Double → Double
  pub less : Double → Double → Bool

module _ (r : Real) where
  infixl 65 ◌⊕◌ ◌⊖◌
  infixl 66 ◌⊗◌ ◌⊘◌
  abbrev ◌⊕◌ : r.Double → r.Double → r.Double
  a ⊕ b = r.add a b

  abbrev ◌⊖◌ : r.Double → r.Double → r.Double
  a ⊖ b = r.sub a b

  abbrev ◌⊗◌ : r.Double → r.Double → r.Double
  a ⊗ b = r.mul a b

  abbrev ◌⊘◌ : r.Double → r.Double → r.Double
  a ⊘ b = r.div a b

  abbrev n : String → r.Double
  n s = r.lit s

  abbrev d2r : r.Double
  d2r = n "1.745329251994329576923691E-2"

  abbrev a2pi : r.Double
  a2pi = n "6.283185307179586476925287"

  abbrev mjd0 : r.Double
  mjd0 = n "2400000.5"

  abbrev mjd2k : r.Double
  mjd2k = n "51544.5"

  abbrev daysec : r.Double
  daysec = n "86400.0"

  abbrev as2r : r.Double
  as2r = n "4.848136811095359935899141E-6"

  unfoldable pub cyclemod : r.Double → r.Double → r.Double
  cyclemod x t = x ⊖ r.floor (x ⊘ t) ⊗ t

  unfoldable pub julian_century : r.Double → r.Double
  julian_century mjd = (mjd ⊖ mjd2k) ⊘ n "36525"

  unfoldable pub epoch : r.Double → r.Double
  epoch mjd = n "2000.0" ⊕ (mjd ⊖ mjd2k) ⊘ n "365.25"

  unfoldable pub julian_day : r.Double → r.Double
  julian_day mjd = mjd ⊕ mjd0

  unfoldable pub tai : r.Double → r.Double → r.Double
  tai mjd dat = mjd ⊕ dat ⊘ daysec

  -- The sidereal times from the Julian century, and from one another.
  unfoldable pub gmst_of : r.Double → r.Double
  unfolding cyclemod
  gmst_of t =
      let gmst =
        n "280.46061837"
        ⊕ t ⊗ (n "13185000.77005374225" ⊕ t ⊗ (n "3.87933E-4" ⊖ t ⊘ n "38710000.0")) in
      cyclemod gmst (n "360.0") ⊗ d2r

  unfoldable pub apparent : r.Double → r.Double → r.Double → r.Double
  apparent mean nl to = mean ⊕ nl ⊗ r.cos to

  unfoldable pub local_mean : r.Double → r.Double → r.Double
  unfolding cyclemod
  local_mean gmst lgt = cyclemod (gmst ⊕ lgt) a2pi

  unfoldable pub mean_obliquity : r.Double → r.Double
  mean_obliquity t =
      let mo =
        n "84381.406"
        ⊕ (n "-46.836769"
            ⊕ (n "-1.831E-4" ⊕ (n "2.0034" ⊕ (n "-5.76E-7" ⊖ n "4.34E-8" ⊗ t) ⊗ t) ⊗ t) ⊗ t)
          ⊗ t in
      mo ⊗ as2r

  -- A polynomial of the third degree in seconds of arc, and degrees at its start.
  unfoldable pub angle : r.Double → r.Double → r.Double
  unfolding cyclemod
  angle seconds degrees = cyclemod (seconds ⊘ n "3600.0" ⊕ degrees) (n "360.0") ⊗ d2r

  unfoldable pub mean_anomaly_sun : r.Double → r.Double
  unfolding angle
  mean_anomaly_sun t =
      angle ((n "129596581.0481" ⊕ (n "-0.5532" ⊕ (n "0.000136" ⊖ n "0.00001149" ⊗ t) ⊗ t) ⊗ t) ⊗ t)
        (n "357.52910918")

  unfoldable pub mean_anomaly_moon : r.Double → r.Double
  unfolding angle
  mean_anomaly_moon t =
      angle ((n "1717915923.2178" ⊕ (n "31.8792" ⊕ (n "0.051635" ⊖ n "0.0002447" ⊗ t) ⊗ t) ⊗ t) ⊗ t)
        (n "134.96340251")

  unfoldable pub mean_elongation_moon_sun : r.Double → r.Double
  unfolding angle
  mean_elongation_moon_sun t =
      angle ((n "1602961601.209" ⊕ (n "-6.3706" ⊕ (n "6.593E-3" ⊖ n "3.169E-5" ⊗ t) ⊗ t) ⊗ t) ⊗ t)
        (n "297.85019547")

  unfoldable pub mean_long_asc_node_moon : r.Double → r.Double
  unfolding angle
  mean_long_asc_node_moon t =
      angle ((n "-6962890.5432" ⊕ (n "7.4722" ⊕ (n "7.702E-3" ⊖ n "5.939E-5" ⊗ t) ⊗ t) ⊗ t) ⊗ t)
        (n "125.04455501")

  unfoldable pub rel_long_moon : r.Double → r.Double
  unfolding angle
  rel_long_moon t =
      angle ((n "1739527262.8478" ⊕ (n "-12.7512" ⊕ (n "-1.037E-3" ⊕ n "4.17E-6" ⊗ t) ⊗ t) ⊗ t) ⊗ t)
        (n "93.27209062")

  unfoldable pub mean_long_sun : r.Double → r.Double
  unfolding cyclemod
  mean_long_sun t =
      cyclemod (n "280.46646" ⊕ (n "36000.76983" ⊕ n "3.032E-4" ⊗ t) ⊗ t) (n "360.0") ⊗ d2r

  unfoldable pub eccentricity_earth : r.Double → r.Double
  eccentricity_earth t = n "0.016708634" ⊖ (n "4.2037E-5" ⊕ n "1.267E-7" ⊗ t) ⊗ t

  unfoldable pub perihelion_long_earth : r.Double → r.Double
  perihelion_long_earth t = (n "102.93735" ⊕ (n "1.71946" ⊕ n "4.6E-4" ⊗ t) ⊗ t) ⊗ d2r

  -- The equation of the centre from the century and the mean anomaly.
  unfoldable pub center_of : r.Double → r.Double → r.Double
  center_of t ma =
      ((n "1.914602" ⊖ (n "4.817E-3" ⊕ n "1.4E-5" ⊗ t) ⊗ t) ⊗ r.sin ma
        ⊕ (n "0.019993" ⊖ n "1.01E-4" ⊗ t) ⊗ r.sin (n "2" ⊗ ma)
        ⊕ n "2.89E-4" ⊗ r.sin (n "3" ⊗ ma))
      ⊗ d2r

  -- The place of the sun from the century, its true longitude and the mean obliquity.
  unfoldable pub position_of : r.Double → r.Double → r.Double → r.Double × r.Double
  unfolding cyclemod
  position_of t tl mo =
      let m = cyclemod (n "125.04" ⊖ n "1934.136" ⊗ t) (n "360.0") ⊗ d2r in
      let l = tl ⊖ (n "5.69E-3" ⊕ n "4.78E-3" ⊗ r.sin m) ⊗ d2r in
      let eps = mo ⊕ n "2.56E-3" ⊗ r.cos m ⊗ d2r in
      let ra = r.atan2 (r.cos eps ⊗ r.sin l) (r.cos l) in
      (if r.less ra (n "0") then ra ⊕ a2pi else ra, r.asin (r.sin eps ⊗ r.sin l))

  -- The sums of the nutation, from the last term to the first.
  unfoldable pub nutation_sum :
      r.Double
      → r.Double
      → r.Double
      → r.Double
      → r.Double
      → r.Double
      → List Term
      → r.Double × r.Double
  nutation_sum t el elp f d om [] = (n "0.0", n "0.0")
  nutation_sum t el elp f d om (x ∷ xs) =
      let later = nutation_sum t el elp f d om xs in
      let arg =
        r.of_int x.nl ⊗ el
        ⊕ r.of_int x.nlp ⊗ elp
        ⊕ r.of_int x.nf ⊗ f
        ⊕ r.of_int x.nd ⊗ d
        ⊕ r.of_int x.nom ⊗ om in
      let sarg = r.sin arg in
      let carg = r.cos arg in
      (
        later.0 ⊕ ((n x.ps ⊕ n x.pst ⊗ t) ⊗ sarg ⊕ n x.pc ⊗ carg),
        later.1 ⊕ ((n x.ec ⊕ n x.ect ⊗ t) ⊗ carg ⊕ n x.es ⊗ sarg),
      )

  -- Nutation from the century, the mean anomalies of the moon and the sun, the argument of latitude,
  -- the elongation and the node of the moon.
  unfoldable pub nutation_of :
      r.Double → r.Double → r.Double → r.Double → r.Double → r.Double → r.Double × r.Double
  unfolding nutation_sum
  nutation_of t el elp f d om =
      let (nl, ob) = nutation_sum t el elp f d om nutation_terms in
      let u2r = as2r ⊗ n "1e-7" in (nl ⊗ u2r ⊕ n "-0.135E-6" ⊗ as2r, ob ⊗ u2r ⊕ n "0.388E-6" ⊗ as2r)
