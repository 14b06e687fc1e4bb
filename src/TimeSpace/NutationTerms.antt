-- ===== src/TimeSpace/NutationTerms.antt =====
-- The terms of the series of the nutation in airs/src/ATimeSpace.cpp: the multiples of the five angles,
-- and the coefficients of the longitude and of the obliquity.
use airs.Base.{List, [], ◌∷◌}
use airs.Base.Int.{ℤ, pos, negsuc}
use Prim.Native.String.{String}

pub record Term : Type 0 where
  pub nl : ℤ
  pub nlp : ℤ
  pub nf : ℤ
  pub nd : ℤ
  pub nom : ℤ
  pub ps : String
  pub pst : String
  pub pc : String
  pub ec : String
  pub ect : String
  pub es : String

abbrev term : ℤ → ℤ → ℤ → ℤ → ℤ → String → String → String → String → String → String → Term
term a b c d e f g h i j k = record {
  nl = a;
  nlp = b;
  nf = c;
  nd = d;
  nom = e;
  ps = f;
  pst = g;
  pc = h;
  ec = i;
  ect = j;
  es = k;
}

unfoldable pub nutation_terms : List Term
nutation_terms =
    term (pos 0) (pos 0) (pos 0) (pos 0) (pos 1) "-172064161.0" "-174666.0" "33386.0" "92052331.0"
      "9086.0" "15377.0"
    ∷ term (pos 0) (pos 0) (pos 2) (negsuc 1) (pos 2) "-13170906.0" "-1675.0" "-13696.0" "5730336.0"
        "-3015.0" "-4587.0"
    ∷ term (pos 0) (pos 0) (pos 2) (pos 0) (pos 2) "-2276413.0" "-234.0" "2796.0" "978459.0"
        "-485.0" "1374.0"
    ∷ term (pos 0) (pos 0) (pos 0) (pos 0) (pos 2) "2074554.0" "207.0" "-698.0" "-897492.0" "470.0"
        "-291.0"
    ∷ term (pos 0) (pos 1) (pos 0) (pos 0) (pos 0) "1475877.0" "-3633.0" "11817.0" "73871.0"
        "-184.0" "-1924.0"
    ∷ term (pos 0) (pos 1) (pos 2) (negsuc 1) (pos 2) "-516821.0" "1226.0" "-524.0" "224386.0"
        "-677.0" "-174.0"
    ∷ term (pos 1) (pos 0) (pos 0) (pos 0) (pos 0) "711159.0" "73.0" "-872.0" "-6750.0" "0.0"
        "358.0"
    ∷ term (pos 0) (pos 0) (pos 2) (pos 0) (pos 1) "-387298.0" "-367.0" "380.0" "200728.0" "18.0"
        "318.0"
    ∷ term (pos 1) (pos 0) (pos 2) (pos 0) (pos 2) "-301461.0" "-36.0" "816.0" "129025.0" "-63.0"
        "367.0"
    ∷ term (pos 0) (negsuc 0) (pos 2) (negsuc 1) (pos 2) "215829.0" "-494.0" "111.0" "-95929.0"
        "299.0" "132.0"
    ∷ term (pos 0) (pos 0) (pos 2) (negsuc 1) (pos 1) "128227.0" "137.0" "181.0" "-68982.0" "-9.0"
        "39.0"
    ∷ term (negsuc 0) (pos 0) (pos 2) (pos 0) (pos 2) "123457.0" "11.0" "19.0" "-53311.0" "32.0"
        "-4.0"
    ∷ term (negsuc 0) (pos 0) (pos 0) (pos 2) (pos 0) "156994.0" "10.0" "-168.0" "-1235.0" "0.0"
        "82.0"
    ∷ term (pos 1) (pos 0) (pos 0) (pos 0) (pos 1) "63110.0" "63.0" "27.0" "-33228.0" "0.0" "-9.0"
    ∷ term (negsuc 0) (pos 0) (pos 0) (pos 0) (pos 1) "-57976.0" "-63.0" "-189.0" "31429.0" "0.0"
        "-75.0"
    ∷ term (negsuc 0) (pos 0) (pos 2) (pos 2) (pos 2) "-59641.0" "-11.0" "149.0" "25543.0" "-11.0"
        "66.0"
    ∷ term (pos 1) (pos 0) (pos 2) (pos 0) (pos 1) "-51613.0" "-42.0" "129.0" "26366.0" "0.0" "78.0"
    ∷ term (negsuc 1) (pos 0) (pos 2) (pos 0) (pos 1) "45893.0" "50.0" "31.0" "-24236.0" "-10.0"
        "20.0"
    ∷ term (pos 0) (pos 0) (pos 0) (pos 2) (pos 0) "63384.0" "11.0" "-150.0" "-1220.0" "0.0" "29.0"
    ∷ term (pos 0) (pos 0) (pos 2) (pos 2) (pos 2) "-38571.0" "-1.0" "158.0" "16452.0" "-11.0"
        "68.0"
    ∷ term (pos 0) (negsuc 1) (pos 2) (negsuc 1) (pos 2) "32481.0" "0.0" "0.0" "-13870.0" "0.0"
        "0.0"
    ∷ term (negsuc 1) (pos 0) (pos 0) (pos 2) (pos 0) "-47722.0" "0.0" "-18.0" "477.0" "0.0" "-25.0"
    ∷ term (pos 2) (pos 0) (pos 2) (pos 0) (pos 2) "-31046.0" "-1.0" "131.0" "13238.0" "-11.0"
        "59.0"
    ∷ term (pos 1) (pos 0) (pos 2) (negsuc 1) (pos 2) "28593.0" "0.0" "-1.0" "-12338.0" "10.0"
        "-3.0"
    ∷ term (negsuc 0) (pos 0) (pos 2) (pos 0) (pos 1) "20441.0" "21.0" "10.0" "-10758.0" "0.0"
        "-3.0"
    ∷ term (pos 2) (pos 0) (pos 0) (pos 0) (pos 0) "29243.0" "0.0" "-74.0" "-609.0" "0.0" "13.0"
    ∷ term (pos 0) (pos 0) (pos 2) (pos 0) (pos 0) "25887.0" "0.0" "-66.0" "-550.0" "0.0" "11.0"
    ∷ term (pos 0) (pos 1) (pos 0) (pos 0) (pos 1) "-14053.0" "-25.0" "79.0" "8551.0" "-2.0" "-45.0"
    ∷ term (negsuc 0) (pos 0) (pos 0) (pos 2) (pos 1) "15164.0" "10.0" "11.0" "-8001.0" "0.0" "-1.0"
    ∷ term (pos 0) (pos 2) (pos 2) (negsuc 1) (pos 2) "-15794.0" "72.0" "-16.0" "6850.0" "-42.0"
        "-5.0"
    ∷ term (pos 0) (pos 0) (negsuc 1) (pos 2) (pos 0) "21783.0" "0.0" "13.0" "-167.0" "0.0" "13.0"
    ∷ term (pos 1) (pos 0) (pos 0) (negsuc 1) (pos 1) "-12873.0" "-10.0" "-37.0" "6953.0" "0.0"
        "-14.0"
    ∷ term (pos 0) (negsuc 0) (pos 0) (pos 0) (pos 1) "-12654.0" "11.0" "63.0" "6415.0" "0.0" "26.0"
    ∷ term (negsuc 0) (pos 0) (pos 2) (pos 2) (pos 1) "-10204.0" "0.0" "25.0" "5222.0" "0.0" "15.0"
    ∷ term (pos 0) (pos 2) (pos 0) (pos 0) (pos 0) "16707.0" "-85.0" "-10.0" "168.0" "-1.0" "10.0"
    ∷ term (pos 1) (pos 0) (pos 2) (pos 2) (pos 2) "-7691.0" "0.0" "44.0" "3268.0" "0.0" "19.0"
    ∷ term (negsuc 1) (pos 0) (pos 2) (pos 0) (pos 0) "-11024.0" "0.0" "-14.0" "104.0" "0.0" "2.0"
    ∷ term (pos 0) (pos 1) (pos 2) (pos 0) (pos 2) "7566.0" "-21.0" "-11.0" "-3250.0" "0.0" "-5.0"
    ∷ term (pos 0) (pos 0) (pos 2) (pos 2) (pos 1) "-6637.0" "-11.0" "25.0" "3353.0" "0.0" "14.0"
    ∷ term (pos 0) (negsuc 0) (pos 2) (pos 0) (pos 2) "-7141.0" "21.0" "8.0" "3070.0" "0.0" "4.0"
    ∷ term (pos 0) (pos 0) (pos 0) (pos 2) (pos 1) "-6302.0" "-11.0" "2.0" "3272.0" "0.0" "4.0"
    ∷ term (pos 1) (pos 0) (pos 2) (negsuc 1) (pos 1) "5800.0" "10.0" "2.0" "-3045.0" "0.0" "-1.0"
    ∷ term (pos 2) (pos 0) (pos 2) (negsuc 1) (pos 2) "6443.0" "0.0" "-7.0" "-2768.0" "0.0" "-4.0"
    ∷ term (negsuc 1) (pos 0) (pos 0) (pos 2) (pos 1) "-5774.0" "-11.0" "-15.0" "3041.0" "0.0"
        "-5.0"
    ∷ term (pos 2) (pos 0) (pos 2) (pos 0) (pos 1) "-5350.0" "0.0" "21.0" "2695.0" "0.0" "12.0"
    ∷ term (pos 0) (negsuc 0) (pos 2) (negsuc 1) (pos 1) "-4752.0" "-11.0" "-3.0" "2719.0" "0.0"
        "-3.0"
    ∷ term (pos 0) (pos 0) (pos 0) (negsuc 1) (pos 1) "-4940.0" "-11.0" "-21.0" "2720.0" "0.0"
        "-9.0"
    ∷ term (negsuc 0) (negsuc 0) (pos 0) (pos 2) (pos 0) "7350.0" "0.0" "-8.0" "-51.0" "0.0" "4.0"
    ∷ term (pos 2) (pos 0) (pos 0) (negsuc 1) (pos 1) "4065.0" "0.0" "6.0" "-2206.0" "0.0" "1.0"
    ∷ term (pos 1) (pos 0) (pos 0) (pos 2) (pos 0) "6579.0" "0.0" "-24.0" "-199.0" "0.0" "2.0"
    ∷ term (pos 0) (pos 1) (pos 2) (negsuc 1) (pos 1) "3579.0" "0.0" "5.0" "-1900.0" "0.0" "1.0"
    ∷ term (pos 1) (negsuc 0) (pos 0) (pos 0) (pos 0) "4725.0" "0.0" "-6.0" "-41.0" "0.0" "3.0"
    ∷ term (negsuc 1) (pos 0) (pos 2) (pos 0) (pos 2) "-3075.0" "0.0" "-2.0" "1313.0" "0.0" "-1.0"
    ∷ term (pos 3) (pos 0) (pos 2) (pos 0) (pos 2) "-2904.0" "0.0" "15.0" "1233.0" "0.0" "7.0"
    ∷ term (pos 0) (negsuc 0) (pos 0) (pos 2) (pos 0) "4348.0" "0.0" "-10.0" "-81.0" "0.0" "2.0"
    ∷ term (pos 1) (negsuc 0) (pos 2) (pos 0) (pos 2) "-2878.0" "0.0" "8.0" "1232.0" "0.0" "4.0"
    ∷ term (pos 0) (pos 0) (pos 0) (pos 1) (pos 0) "-4230.0" "0.0" "5.0" "-20.0" "0.0" "-2.0"
    ∷ term (negsuc 0) (negsuc 0) (pos 2) (pos 2) (pos 2) "-2819.0" "0.0" "7.0" "1207.0" "0.0" "3.0"
    ∷ term (negsuc 0) (pos 0) (pos 2) (pos 0) (pos 0) "-4056.0" "0.0" "5.0" "40.0" "0.0" "-2.0"
    ∷ term (pos 0) (negsuc 0) (pos 2) (pos 2) (pos 2) "-2647.0" "0.0" "11.0" "1129.0" "0.0" "5.0"
    ∷ term (negsuc 1) (pos 0) (pos 0) (pos 0) (pos 1) "-2294.0" "0.0" "-10.0" "1266.0" "0.0" "-4.0"
    ∷ term (pos 1) (pos 1) (pos 2) (pos 0) (pos 2) "2481.0" "0.0" "-7.0" "-1062.0" "0.0" "-3.0"
    ∷ term (pos 2) (pos 0) (pos 0) (pos 0) (pos 1) "2179.0" "0.0" "-2.0" "-1129.0" "0.0" "-2.0"
    ∷ term (negsuc 0) (pos 1) (pos 0) (pos 1) (pos 0) "3276.0" "0.0" "1.0" "-9.0" "0.0" "0.0"
    ∷ term (pos 1) (pos 1) (pos 0) (pos 0) (pos 0) "-3389.0" "0.0" "5.0" "35.0" "0.0" "-2.0"
    ∷ term (pos 1) (pos 0) (pos 2) (pos 0) (pos 0) "3339.0" "0.0" "-13.0" "-107.0" "0.0" "1.0"
    ∷ term (negsuc 0) (pos 0) (pos 2) (negsuc 1) (pos 1) "-1987.0" "0.0" "-6.0" "1073.0" "0.0"
        "-2.0"
    ∷ term (pos 1) (pos 0) (pos 0) (pos 0) (pos 2) "-1981.0" "0.0" "0.0" "854.0" "0.0" "0.0"
    ∷ term (negsuc 0) (pos 0) (pos 0) (pos 1) (pos 0) "4026.0" "0.0" "-353.0" "-553.0" "0.0"
        "-139.0"
    ∷ term (pos 0) (pos 0) (pos 2) (pos 1) (pos 2) "1660.0" "0.0" "-5.0" "-710.0" "0.0" "-2.0"
    ∷ term (negsuc 0) (pos 0) (pos 2) (pos 4) (pos 2) "-1521.0" "0.0" "9.0" "647.0" "0.0" "4.0"
    ∷ term (negsuc 0) (pos 1) (pos 0) (pos 1) (pos 1) "1314.0" "0.0" "0.0" "-700.0" "0.0" "0.0"
    ∷ term (pos 0) (negsuc 1) (pos 2) (negsuc 1) (pos 1) "-1283.0" "0.0" "0.0" "672.0" "0.0" "0.0"
    ∷ term (pos 1) (pos 0) (pos 2) (pos 2) (pos 1) "-1331.0" "0.0" "8.0" "663.0" "0.0" "4.0"
    ∷ term (negsuc 1) (pos 0) (pos 2) (pos 2) (pos 2) "1383.0" "0.0" "-2.0" "-594.0" "0.0" "-2.0"
    ∷ term (negsuc 0) (pos 0) (pos 0) (pos 0) (pos 2) "1405.0" "0.0" "4.0" "-610.0" "0.0" "2.0"
    ∷ term (pos 1) (pos 1) (pos 2) (negsuc 1) (pos 2) "1290.0" "0.0" "0.0" "-556.0" "0.0" "0.0"
    ∷ []
