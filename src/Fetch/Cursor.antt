-- ===== src/Fetch/Cursor.antt =====
-- The next cursor of filedge/fetch/source_client.py, by an order on texts.
use filedge.Base.{
  ◌≡◌, refl, sym, ap, ◌∙◌, subst, Bool, true, false, String, Option, none, some, List, [], ◌∷◌,
  select, All, arith,
}
use filedge.Base.Json.{Json}
use filedge.Base.Result.{ok, ok-injective}
use filedge.Fetch.Plan.{FetchPlan}
use filedge.Fetch.Client.{
  Http, request, client_url, is_newer, newer_value, with_value, dotted_get, fetch_client,
  max_cursor,
}
use filedge.Fetch.Paging.{continue-ok}

-- The order on texts is one.
pub record IsOrder (greater : String → String → Bool) : Type 0 where
  pub irreflexive : (a : String) → greater a a ≡ false
  pub asymmetric : (a b : String) → greater a b ≡ true → greater b a ≡ false
  pub transitive :
      (a b c : String) → greater a b ≡ false → greater b c ≡ false → greater a c ≡ false

module _ {World Body Delay : Type 0} (http : Http World Body Delay) (plan : FetchPlan) where
  open http use {greater, str, split}

  -- No cursor, or one that is at most `c`.
  abbrev AtMost : Option String → String → Type 0
  AtMost none c = Unit
  AtMost (some b) c = greater b c ≡ false

  abbrev NotNewer : String → Json → Type 0
  NotNewer c r = is_newer http plan (some c) r ≡ false

  with_value-AtMost :
      IsOrder greater
      → (best : Option String) (value : Option Json) (c : String)
      → AtMost (with_value http best value) c
      → AtMost best c × (newer_value http value c ≡ false)
  with_value-AtMost order none none c h = (tt, refl)
  with_value-AtMost order none (some v) c h = (tt, h)
  with_value-AtMost order (some b) none c h = (h, refl)
  with_value-AtMost order (some b) (some v) c h = ground (
    arith,
    order.asymmetric (str v) b,
    order.transitive b (str v) c,
    order.transitive (str v) b c,
  )

  max_cursor-AtMost :
      IsOrder greater
      → (records : List Json) (best : Option String) (c : String)
      → max_cursor http plan records best ≡ some c
      → AtMost best c × All (NotNewer c) records
  unfolding max_cursor is_newer
  max_cursor-AtMost order [] none c h = cc
  max_cursor-AtMost order [] (some b) c h =
      (subst (λ d. greater b d ≡ false) (cc h) (order.irreflexive b), tt)
  max_cursor-AtMost order (r ∷ records) best c h =
      let (le, rest) =
        max_cursor-AtMost order records
          (with_value http best (dotted_get (split plan.cursor_field) r)) c h in
      let (at_most, newer) =
        with_value-AtMost order best (dotted_get (split plan.cursor_field) r) c le in
      (at_most, (newer, rest))

  newer_value-later :
      IsOrder greater
      → (b c : String) (value : Option Json) → greater b c ≡ false
      → newer_value http value b ≡ false
      → newer_value http value c ≡ false
  newer_value-later order b c none h older = refl
  newer_value-later order b c (some v) h older = order.transitive (str v) b c older h

  -- A record that is not newer than a cursor is not newer than a later one.
  is_newer-later :
      IsOrder greater
      → (cursor : Option String) (c : String) (r : Json) → AtMost cursor c
      → is_newer http plan cursor r ≡ false
      → NotNewer c r
  unfolding is_newer
  is_newer-later order none c r h older = cc
  is_newer-later order (some b) c r h older =
      newer_value-later order b c (dotted_get (split plan.cursor_field) r) h older

  select-none :
      IsOrder greater
      → (records : List Json) (cursor : Option String) (c : String) → AtMost cursor c
      → All (NotNewer c) (select (is_newer http plan cursor) records)
      → select (is_newer http plan (some c)) records ≡ []
  select-none order [] cursor c h older = refl
  select-none order (r ∷ records) cursor c h older =
      ground (arith, is_newer-later order cursor c r h, select-none order records cursor c h)

  -- If the document of an API Source does not change and the order on texts is one, a second fetch
  -- in client mode, from the cursor that the first fetch gives, brings no records.
  pub fetch_client-again :
      (records all : List Json) (cursor : Option String) (c : String) (w v : World)
      → IsOrder greater
      → ((u : World) → (request http plan (client_url http plan) u).0 ≡ ok all)
      → (fetch_client http plan cursor w).0 ≡ ok records
      → max_cursor http plan records cursor ≡ some c
      → (fetch_client http plan (some c) v).0 ≡ ok []
  unfolding fetch_client
  fetch_client-again records all cursor c w v order served fetched next =
      let found : select (is_newer http plan cursor) all ≡ records =
        ok-injective (sym (ap (λ r. r.0) (continue-ok _ _ all (served w))) ∙ fetched) in
      let (at_most, older) = max_cursor-AtMost order records cursor c next in
      ap (λ r. r.0) (continue-ok _ _ all (served v))
      ∙ ap ok (select-none order all cursor c at_most (subst (All (NotNewer c)) (sym found) older))
