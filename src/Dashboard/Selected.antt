-- ===== src/Dashboard/Selected.antt =====
-- An operation on the selection reaches rows of the page only, each once for its place in the
-- selection.
use cronova.Base.{
  ◌+◌, ◌≡◌, refl, Bool, true, false, List, [], ◌∷◌, ◌++◌, map, keep, all, includes, length, Text,
  codes,
}
use cronova.Session.Api.{Result, returned, thrown}
use cronova.Dashboard.Bulk.{Dashboard, listed, BulkOp, bulk_request, BulkDone, bulk_ids}

-- Every selected row is on the page.
abbrev pub IsListed : Dashboard → Type 0
IsListed s = all (λ i. includes i (listed s)) (bulk_ids s) ≡ true

listed-sel : (s : Dashboard) (sel : List Text) → listed (record s { bulk_sel = sel }) ≡ listed s
unfolding listed
listed-sel s sel = refl

-- Whether a request went well, and what is reported of one that did not.
abbrev pub did_well : Result (Unit {0}) → Bool
did_well (returned u) = true
did_well (thrown f) = false

abbrev pub report : Text → Result (Unit {0}) → List Text
report i (returned u) = []
report i (thrown f) = (i ++ (codes ": " ++ f.message)) ∷ []

abbrev pub reports : (Text → Result (Unit {0})) → List Text → List Text
reports reply [] = []
reports reply (i ∷ is) = report i (reply i) ++ reports reply is

-- One request for each id, in order; the count of those that went well; and the reports of the others,
-- in order.
abbrev pub HasAnswered :
    (Text → Text) → BulkOp → (Text → Result (Unit {0})) → List Text → BulkDone → BulkDone → Type 0
HasAnswered encode op reply is b c =
    (c.requests ≡ b.requests ++ map (bulk_request encode op) is)
    × (c.went_well ≡ b.went_well + length (keep (λ i. did_well (reply i)) is))
    × (c.fails ≡ b.fails ++ reports reply is)
