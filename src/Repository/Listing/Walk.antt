-- ===== src/Repository/Listing/Walk.antt =====
-- A client that follows the cursors from page to page.
use mathlib.Core.List.{map-append, append_assoc}
use cmdboss.Prelude.{
  Dict, ℕ, zero, suc, ◌-◌, ◌<◌, ◌≡◌, ◌≢◌, refl, sym, ◌∙◌, ap, String, true, false, none, some, List,
  [], ◌∷◌, ◌++◌, map, length, take, drop, Memᴰ, mem-select, mem-sort, ◌==◌, ==_iff, min, max,
  if◌then◌else◌, inl, inr, Bool-cases, Distinct, arith, Option, select,
}
use mathlib.Core.List.Memᴰ
use cmdboss.Value.{Value}
use cmdboss.Errors.Result.{Result, ok}
use cmdboss.Documents.{CiDoc, Item, serialize}
use cmdboss.Driver.{Driver}
use cmdboss.Registry.{TypeDoc}
use cmdboss.Cursor.{Codec, encode_cursor, decode_cursor-encode_cursor}
use cmdboss.Store.{Store, Config, Readings, spelling}
use cmdboss.Repository.Listing.{
  Comparison, Literals, SortKey, ListQuery, Page, sort_value, filter_query, parse_sort, limit_of,
  last, and_then, passes_filters, sorted_by, find_page, next_cursor, list_page, position, list_docs,
}
use cmdboss.Repository.Listing.Keyset.{same_ci_id, whole_list, HasOneClass, start_page, next_page}

module _ {A : Type 0} where
  last-concat : (xs : List A) (d : A) → last (xs ++ d ∷ []) ≡ some d
  last-concat [] d = refl
  last-concat (x ∷ []) d = refl
  last-concat (x ∷ y ∷ xs) d = last-concat (y ∷ xs) d

  take-append-drop : (n : ℕ) (xs : List A) → take n xs ++ drop n xs ≡ xs
  take-append-drop zero xs = refl
  take-append-drop (suc n) [] = refl
  take-append-drop (suc n) (x ∷ xs) = ap (λ l. x ∷ l) (take-append-drop n xs)

  -- a page that is not full holds all that is left
  take_short : (n : ℕ) (xs : List A) → length (take n xs) ≢ n → take n xs ≡ xs
  take_short zero xs h = absurd (h refl)
  take_short (suc n) [] h = refl
  take_short (suc n) (x ∷ xs) h = ap (λ l. x ∷ l) (take_short n xs (λ e. h (ap suc e)))

  -- a full page has a last element, with the rest behind it
  take_full :
      (n : ℕ) (xs : List A)
      → length (take (suc n) xs) ≡ suc n
      → (init : List A) × (d : A) × (take (suc n) xs ≡ init ++ d ∷ [])
        × (xs ≡ init ++ d ∷ drop (suc n) xs)
        × (length (drop (suc n) xs) < length xs)
  take_full n [] h = absurd (omega (arith, h))
  take_full zero (x ∷ xs) h = ([], x, refl, refl, omega arith)
  take_full (suc n) (x ∷ xs) h =
      let (init, d, e1, e2, lt) = take_full n xs (omega (arith, h)) in
      (x ∷ init, d, ap (λ l. x ∷ l) e1, ap (λ l. x ∷ l) e2, omega (arith, lt))

limit_of_pos :
    (default most : ℕ) (limit : Option ℕ) → (n : ℕ) × (limit_of default most limit ≡ suc n)
unfolding limit_of
limit_of_pos default most none = (max 1 (min default most) - 1, omega arith)
limit_of_pos default most (some n) =
    let m : ℕ = min (if n == 0 then default else n) most in (max 1 m - 1, omega arith)

module _ (mongo : Driver) (cfg : Config mongo) (codec : Codec cfg.iso) (order : Comparison) where
  -- the items of a page, and those that `more` gets with its cursor
  pub follow : (String → Result (List Item)) → Page → Result (List Item)
  follow more page = elim page.next_cursor [
    | none ↦ ok page.items
    | some token ↦ and_then (more token) (λ rest. ok (page.items ++ rest))
  ]

  -- ask for a page, and for the next one while there is a cursor
  pub walk :
      ℕ → Literals → Readings → TypeDoc → String → ListQuery → Store mongo → Result (List Item)
  walk zero lit r t type_name x s = ok []
  walk (suc n) lit r t type_name x s =
      and_then (list_docs mongo cfg codec order lit r t type_name x s)
        (follow (λ token. walk n lit r t type_name (record x { cursor = some token }) s))

  follow_last :
      (more : String → Result (List Item)) (k : SortKey) (q : Dict Value) (n : ℕ) (x : ListQuery)
      (s : Store mongo) (type_name : String) (docs : List CiDoc)
      → (length docs == n) ≡ false
      → and_then (list_page mongo cfg codec order k q n x s type_name docs) (follow more)
        ≡ ok (map (serialize (spelling mongo cfg)) docs)
  unfolding follow list_page next_cursor
  follow_last more k q n x s type_name docs short = rw short refl

  follow_next :
      (more : String → Result (List Item)) (k : SortKey) (q : Dict Value) (n : ℕ) (x : ListQuery)
      (s : Store mongo) (type_name : String) (docs : List CiDoc) (d : CiDoc) (token : String)
      → (length docs == n) ≡ true
      → last docs ≡ some d
      → encode_cursor mongo cfg.iso codec (sort_value k.field d) d.id ≡ ok token
      → and_then (list_page mongo cfg codec order k q n x s type_name docs) (follow more)
        ≡ and_then (more token) (λ rest. ok (map (serialize (spelling mongo cfg)) docs ++ rest))
  unfolding follow list_page next_cursor
  follow_next more k q n x s type_name docs d token full end made = rw (full, end, made) refl

  -- every document of the type can be named by a cursor
  abbrev pub AreEncodable : SortKey → mongo.Coll CiDoc → Type 0
  AreEncodable k c =
      (d : CiDoc)
      → Memᴰ d (mongo.docs c)
      → (token : String) × (encode_cursor mongo cfg.iso codec (sort_value k.field d) d.id
          ≡ ok token)

module _ (mongo : Driver) (cfg : Config mongo) (codec : Codec cfg.iso) (order : Comparison)
    (lit : Literals) (r : Readings) (t : TypeDoc) (type_name : String) (s : Store mongo)
    (q : Dict Value) (k : SortKey) (unique : Distinct same_ci_id (mongo.docs (s.cis type_name)))
    (one : HasOneClass mongo cfg codec order k (passes_filters order q) (s.cis type_name))
    (named : AreEncodable mongo cfg codec order k (s.cis type_name)) where
  -- a document of the whole list is in the collection
  home :
      (d : CiDoc) (pre post : List CiDoc)
      → whole_list mongo cfg codec order k (passes_filters order q) (s.cis type_name)
        ≡ pre ++ d ∷ post
      → Memᴰ d (mongo.docs (s.cis type_name))
  home d pre post whole =
      let m =
        mem-sort (sorted_by order k) d
          (select (passes_filters order q) (mongo.docs (s.cis type_name)))
          (rw whole (Memᴰ.append_right pre (Memᴰ.head refl))) in
      ((mem-select (passes_filters order q) d (mongo.docs (s.cis type_name))).0 m).0

  list_docs_lem :
      (x : ListQuery) (at : Option (Value × ℕ)) (n : ℕ) (docs : List CiDoc)
      → filter_query cfg.compiles lit t.fields x.filters ≡ ok q
      → parse_sort t.fields x.sort ≡ ok k
      → position mongo cfg codec order r.oid x.cursor ≡ ok at
      → limit_of cfg.default_page_size cfg.max_page_size x.limit ≡ suc n
      → find_page mongo cfg codec order k q at x.offset (suc n) (s.cis type_name) ≡ docs
      → list_docs mongo cfg codec order lit r t type_name x s
        ≡ list_page mongo cfg codec order k q (suc n) x s type_name docs
  unfolding list_docs
  list_docs_lem x at n docs hq hk hc hn page = rw (hn, hq, hk, hc, page) refl

  walk_from :
      (fuel : ℕ) (x : ListQuery) (at : Option (Value × ℕ)) (n : ℕ) (pre post : List CiDoc)
      → filter_query cfg.compiles lit t.fields x.filters ≡ ok q
      → parse_sort t.fields x.sort ≡ ok k
      → position mongo cfg codec order r.oid x.cursor ≡ ok at
      → limit_of cfg.default_page_size cfg.max_page_size x.limit ≡ suc n
      → whole_list mongo cfg codec order k (passes_filters order q) (s.cis type_name) ≡ pre ++ post
      → find_page mongo cfg codec order k q at x.offset (suc n) (s.cis type_name)
        ≡ take (suc n) post
      → length post < fuel
      → walk mongo cfg codec order fuel lit r t type_name x s
        ≡ ok (map (serialize (spelling mongo cfg)) post)
  unfolding walk
  walk_from zero x at n pre post hq hk hc hn whole page enough = absurd (omega (arith, enough))
  walk_from (suc fuel) x at n pre post hq hk hc hn whole page enough =
      let docs = take (suc n) post in
      let show = serialize (spelling mongo cfg) in
      let more : String → Result (List Item) = λ token.
        walk mongo cfg codec order fuel lit r t type_name (record x { cursor = some token }) s in
      rw (list_docs_lem x at n docs hq hk hc hn page) (elim (Bool-cases (length docs == suc n)) [
        | inr short ↦
            follow_last mongo cfg codec order more k q (suc n) x s type_name docs short
            ∙ ap (λ l. ok (map show l))
                (take_short (suc n) post (λ e. let e' = (==_iff _ _).1 e in cc))
        | inl full ↦
            let (init, d, e1, e2, lt) = take_full n post ((==_iff _ _).0 full) in
            let split = whole ∙ ap (λ l. pre ++ l) e2 ∙ sym (append_assoc pre init _) in
            let (token, made) = named d (home d (pre ++ init) (drop (suc n) post) split) in
            let rest =
              walk_from fuel (record x { cursor = some token }) (some (sort_value k.field d, d.id))
                n (pre ++ docs) (drop (suc n) post) hq hk
                (rw
                  (decode_cursor-encode_cursor mongo cfg.iso codec r.oid (sort_value k.field d) d.id
                    token made)
                  refl)
                hn
                (whole
                  ∙ ap (λ l. pre ++ l) (sym (take-append-drop (suc n) post))
                  ∙ sym (append_assoc pre docs (drop (suc n) post)))
                (next_page mongo cfg codec order k q x.offset (suc n) (s.cis type_name)
                  (pre ++ init) d (drop (suc n) post) unique one split)
                (omega (arith, lt, enough)) in
            follow_next mongo cfg codec order more k q (suc n) x s type_name docs d token full
              (ap last e1 ∙ last-concat init d) made
            ∙ ap (λ (res : Result (List Item)). and_then res (λ items. ok (map show docs ++ items)))
                rest
            ∙ ap (λ l. ok l)
                (sym (map-append show docs (drop (suc n) post))
                  ∙ ap (map show) (take-append-drop (suc n) post))
      ])

  -- A client that starts at offset 0 without a cursor and follows `next_cursor` to the end gets
  -- every CI that the filters let through, each once and in the order of the sort, whatever the
  -- size of the pages: where ids are unique, the values that are sorted by are all of one class
  -- for MongoDB and have a token, and the client does not give up before one more page than the
  -- list is long.
  pub walk-whole_list :
      (fuel : ℕ) (x : ListQuery)
      → filter_query cfg.compiles lit t.fields x.filters ≡ ok q
      → parse_sort t.fields x.sort ≡ ok k
      → x.cursor ≡ none
      → x.offset ≡ 0
      → length (whole_list mongo cfg codec order k (passes_filters order q) (s.cis type_name))
        < fuel
      → walk mongo cfg codec order fuel lit r t type_name x s
        ≡ ok (
            map
              (serialize (spelling mongo cfg))
              (whole_list mongo cfg codec order k (passes_filters order q) (s.cis type_name)))
  walk-whole_list fuel x hq hk hc ho enough =
      let (n, hn) = limit_of_pos cfg.default_page_size cfg.max_page_size x.limit in
      walk_from fuel x none n []
        (whole_list mongo cfg codec order k (passes_filters order q) (s.cis type_name)) hq hk
        (rw hc refl) hn refl
        (rw ho (start_page mongo cfg codec order k q (suc n) (s.cis type_name) unique)) enough
