-- ===== src/Tests/Listing.antt =====
-- A client that reads three CIs in pages of two.
use cmdboss.Prelude.{
  ℕ, suc, ◌-◌, ◌<◌, ◌≡◌, refl, true, false, ◌&&◌, not, ◌⊎◌, none, some, List, [], ◌∷◌, map, length,
  any, select, leb, arith,
}
use cmdboss.Value.{Value}
use cmdboss.Errors.Result.{ok}
use cmdboss.Documents.{CiDoc, serialize}
use cmdboss.Driver.InMemory.{in_memory}
use cmdboss.Cursor.{cursor_payload, encode_cursor}
use cmdboss.Store.{Store, Config, spelling}
use cmdboss.Repository.Listing.{
  Comparison, Literals, SortField, SortKey, ListQuery, sort_value, comes_first, sorted_by,
  passes_filters, filter_query, parse_sort,
}
use cmdboss.Repository.Listing.Keyset.{whole_list}
use cmdboss.Repository.Listing.Walk.{walk, walk-whole_list, AreEncodable}
use cmdboss.Tests.World.{cfg, empty_store, at_time, host, server}
use cmdboss.Tests.Tokens.{codec, unary, put_text}

-- an order of the timestamps, which come after all other values
abbrev rank : Value → ℕ
rank (Value.datetime n) = suc n
rank _ = 0

rank_total : (a b : Value) → (leb (rank a) (rank b) ≡ true) ⊎ (leb (rank b) (rank a) ≡ true)
rank_total a b = ground arith

rank_trans :
    (a b c : Value)
    → leb (rank a) (rank b) ≡ true
    → leb (rank b) (rank c) ≡ true
    → leb (rank a) (rank c) ≡ true
rank_trans a b c h k = ground arith

abbrev order : Comparison
order = record {
  le = λ a b. leb (rank a) (rank b);
  eq = λ a b. leb (rank a) (rank b) && leb (rank b) (rank a);
  gt = λ a b. not (leb (rank a) (rank b));
  lt = λ a b. not (leb (rank b) (rank a));
  comparable = λ a b. true;
  le_total = rank_total;
  le_trans = rank_trans;
  eq_lem = λ a b h. refl;
  gt_lem = λ a b h. refl;
  lt_lem = λ a b h. refl;
}

abbrev literals : Literals
literals = record { int_of = λ s. none; float_of = λ s. none }

abbrev listing_cfg : Config in_memory
listing_cfg = record cfg { iso = unary }

abbrev ci_at : ℕ → CiDoc
ci_at n = record {
  id = n;
  fields = host "a";
  meta = record {
    type = "server";
    revision = 1;
    schema_version = 3;
    created_at = n;
    updated_at = 10 - n;
    created_by = "ann";
    updated_by = "ann";
    provenance = none;
  };
}

abbrev three : Store in_memory
three = record empty_store { cis = λ t. ci_at 1 ∷ ci_at 2 ∷ ci_at 3 ∷ [] }

abbrev by_two : ListQuery
by_two = record {
  limit = some 2;
  offset = 0;
  sort = none;
  cursor = none;
  filters = [];
  include_total = false;
}

abbrev newest_first : SortKey
newest_first = record { field = SortField.updated_at; descending = true }

three_encodable : AreEncodable in_memory listing_cfg codec order newest_first (three.cis "server")
unfolding encode_cursor cursor_payload sort_value
three_encodable d m = (
  put_text "v" (
      put_text (unary d.meta.updated_at)
        (put_text "i" (put_text (unary d.id) (put_text "t" (put_text "dt" ""))))),
  refl,
)

abbrev expected : List CiDoc
expected =
    whole_list in_memory listing_cfg codec order newest_first (passes_filters order [])
      (three.cis "server")

three_expected : length expected < 4
unfolding select passes_filters sorted_by comes_first sort_value
three_expected = omega arith

walk-whole_list_example :
    walk in_memory listing_cfg codec order 4 literals (at_time 7) server "server" by_two three
    ≡ ok (map (serialize (spelling in_memory listing_cfg)) expected)
unfolding filter_query parse_sort any
walk-whole_list_example =
    walk-whole_list in_memory listing_cfg codec order literals (at_time 7) server "server" three []
      newest_first (refl, (refl, (refl, tt))) (λ a d m p m' p'. refl) three_encodable 4 by_two refl
      refl refl refl three_expected
