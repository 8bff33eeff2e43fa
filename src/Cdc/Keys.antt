-- ===== src/Cdc/Keys.antt =====
-- `latest_by_key` of filedge/cdc.py is a map up to Python's equality of keys.
use filedge.Base.{◌≡◌, refl, true, some, [], ◌∷◌, if◌then◌else◌, arith}
use filedge.Cdc.Values.{CdcValues, IsLawful}
use filedge.Cdc.Plan.{Key, Latest, LatestByKey, same_key, latest_of, set_latest}

module _ (v : CdcValues) (law : IsLawful v) where
  pub same_key_refl : (k : Key v) → same_key v k k ≡ true
  same_key_refl [] = refl
  same_key_refl (a ∷ k) = ground (arith, law.same_refl a, same_key_refl k)

  pub same_key_sym : (k j : Key v) → same_key v k j ≡ true → same_key v j k ≡ true
  same_key_sym [] [] h = refl
  same_key_sym [] (b ∷ j) h = cc
  same_key_sym (a ∷ k) [] h = cc
  same_key_sym (a ∷ k) (b ∷ j) h = ground (arith, law.same_sym a b, same_key_sym k j)

  pub same_key_trans :
      (k j i : Key v) → same_key v k j ≡ true → same_key v j i ≡ true → same_key v k i ≡ true
  same_key_trans [] [] [] h g = refl
  same_key_trans [] [] (c ∷ i) h g = cc
  same_key_trans [] (b ∷ j) i h g = cc
  same_key_trans (a ∷ k) [] i h g = cc
  same_key_trans (a ∷ k) (b ∷ j) [] h g = cc
  same_key_trans (a ∷ k) (b ∷ j) (c ∷ i) h g =
      ground (arith, law.same_trans a b c, same_key_trans k j i)

  pub latest_of-set_latest :
      (j k : Key v) (e : Latest v) (latest : LatestByKey v)
      → latest_of v j (set_latest v k e latest)
        ≡ (if same_key v k j then some e else latest_of v j latest)
  unfolding latest_of set_latest
  latest_of-set_latest j k e [] = refl
  latest_of-set_latest j k e ((i, old) ∷ latest) = ground (
    arith,
    latest_of-set_latest j k e latest,
    same_key_sym i k,
    same_key_sym k i,
    same_key_trans k i j,
    same_key_trans i k j,
    same_key_sym k j,
    same_key_trans i j k,
  )

  pub latest_of-same :
      (j k : Key v) (latest : LatestByKey v)
      → same_key v k j ≡ true
      → latest_of v k latest ≡ latest_of v j latest
  unfolding latest_of
  latest_of-same j k [] h = refl
  latest_of-same j k ((i, old) ∷ latest) h = ground (
    arith,
    latest_of-same j k latest h,
    same_key_sym k j,
    same_key_trans i k j,
    same_key_trans i j k,
  )
