-- ===== src/Fetch/Paging.antt =====
-- The loops over pages of filedge/fetch/source_client.py against an API that lists records.
use mathlib.Core.List.{append-nil, append_assoc}
use filedge.Base.{
  ℕ, zero, suc, ◌+◌, ◌<◌, ◌≤◌, ◌≡◌, refl, ap, ◌∙◌, subst, String, Option, some, List, [], ◌∷◌, ◌++◌,
  length, take, drop, ltb, arith, Bool-cases, inl, inr,
}
use filedge.Base.Json.{Json}
use filedge.Base.Result.{Result, ok, err}
use filedge.Fetch.Plan.{FetchPlan}
use filedge.Fetch.Client.{
  ClientError, Io, continue, Http, request, server_url, fetch_pages, after_page, fetch_server,
}

take-append-drop : {A : Type 0} (n : ℕ) (xs : List A) → take n xs ++ drop n xs ≡ xs
take-append-drop zero xs = refl
take-append-drop (suc n) [] = refl
take-append-drop (suc n) (x ∷ xs) = ap (λ l. x ∷ l) (take-append-drop n xs)

-- A page that is not full is the last.
drop_of_short : {A : Type 0} (n : ℕ) (xs : List A) → length (take n xs) < n → drop n xs ≡ []
drop_of_short zero xs h = absurd (omega arith)
drop_of_short (suc n) [] h = refl
drop_of_short (suc n) (x ∷ xs) h = drop_of_short n xs (omega arith)

length-drop-le : {A : Type 0} (n : ℕ) (xs : List A) → length (drop n xs) ≤ length xs
length-drop-le zero xs = omega arith
length-drop-le (suc n) [] = omega arith
length-drop-le (suc n) (x ∷ xs) = omega (arith, length-drop-le n xs)

length-drop-lt :
    {A : Type 0} (n : ℕ) (xs : List A) → 0 < length (take n xs) → length (drop n xs) < length xs
length-drop-lt zero xs h = absurd (omega arith)
length-drop-lt (suc n) [] h = absurd (omega arith)
length-drop-lt (suc n) (x ∷ xs) h = omega (arith, length-drop-le n xs)

-- A computation goes on with the value of its first part.
pub continue-ok :
    {World A B : Type 0} (f : A → Io World B) (r : Result ClientError A × World) (a : A)
    → r.0 ≡ ok a
    → continue f r ≡ f a r.1
continue-ok f (ok b, w) a h = cc
continue-ok f (err e, w) a h = cc

module _ {World Body Delay : Type 0} (http : Http World Body Delay) (plan : FetchPlan)
    (cursor : Option String) where
  -- The API serves pages of a list of records, and the records after each page.
  pub record Serves (rest : ℕ → List Json) : Type 0 where
    pub page :
        (k : ℕ) (w : World)
        → (request http plan (server_url http plan cursor (suc k)) w).0
          ≡ ok (take plan.page_size (rest k))
    pub next : (k : ℕ) → rest (suc k) ≡ drop plan.page_size (rest k)

  after_page-all :
      (fuel page : ℕ) (records batch rest : List Json) (w : World)
      → 0 < plan.page_size
      → (length batch < plan.page_size → rest ≡ [])
      → (0 < length batch
          → (recs : List Json) (v : World)
          → (fetch_pages http plan cursor fuel page recs v).0 ≡ ok (some (recs ++ rest)))
      → (after_page http plan.page_size (fetch_pages http plan cursor fuel page) records batch w).0
        ≡ ok (some (records ++ (batch ++ rest)))
  after_page-all fuel page records [] rest w pos short again = rw (short pos, append-nil)
  after_page-all fuel page records (r ∷ batch) rest w pos short again =
      elim (Bool-cases (ltb (length (r ∷ batch)) plan.page_size)) [
        | inl last ↦ rw (last, short (ground arith), append-nil)
        | inr full ↦ rw full (again (omega arith) (records ++ (r ∷ batch)) w ∙ rw append_assoc)
      ]

  fetch_pages-rest :
      (rest : ℕ → List Json)
      → Serves rest
      → 0 < plan.page_size
      → (fuel k page : ℕ) (records : List Json) (w : World) → page ≡ suc k
      → length (rest k) < fuel
      → (fetch_pages http plan cursor fuel page records w).0 ≡ ok (some (records ++ rest k))
  unfolding fetch_pages
  fetch_pages-rest rest serves pos zero k page records w same enough = absurd (omega arith)
  fetch_pages-rest rest serves pos (suc fuel) k page records w same enough =
      let served : (request http plan (server_url http plan cursor page) w).0
          ≡ ok (take plan.page_size (rest k)) =
        rw same (serves.page k w) in
      ap (λ r. r.0)
        (continue-ok _ (request http plan (server_url http plan cursor page) w) _ served)
      ∙ after_page-all fuel (page + 1) records (take plan.page_size (rest k))
          (drop plan.page_size (rest k)) _ pos (drop_of_short plan.page_size (rest k))
          (λ some_left recs v.
            subst
              (λ l. (fetch_pages http plan cursor fuel (page + 1) recs v).0 ≡ ok (some (recs ++ l)))
              (serves.next k)
              (fetch_pages-rest rest serves pos fuel (suc k) (page + 1) recs v (omega arith) (
                omega (
                  arith,
                  length-drop-lt plan.page_size (rest k) some_left,
                  ap length (serves.next k),
                ))))
      ∙ ap (λ l. ok (some (records ++ l))) (take-append-drop plan.page_size (rest k))

  -- Against an API that serves a list of records in pages of a positive page size, the paginated
  -- fetch ends and brings all records in their order; as many rounds as there are records and one
  -- more are enough.
  pub fetch_server-all :
      (fuel : ℕ) (rest : ℕ → List Json) (w : World)
      → Serves rest
      → 0 < plan.page_size
      → length (rest 0) < fuel
      → (fetch_server http fuel plan cursor w).0 ≡ ok (some (rest 0))
  unfolding fetch_server
  fetch_server-all fuel rest w serves pos enough =
      fetch_pages-rest rest serves pos fuel 0 1 [] w (omega arith) enough
