-- ===== src/Kids/Approvals.antt =====
-- What a parent allows and blocks, and the PIN that leaves the kids mode: `SetApproval`,
-- `ListApprovals`, `ClearApproval`, `SetExitPin` and `VerifyExitPin` of
-- backend/internal/kids/service.go with their statements. The reader of uuids and the SHA-256 in
-- hexadecimal are parameters.
pub mod Pin
use ketapod_website.Base.{
  ℕ, Bool, true, false, not, ◌&&◌, ◌||◌, Option, none, some, List, [], ◌∷◌, ◌++◌, ltb, ◌==◌,
  if◌then◌else◌, find, select, length, update_where,
}
use ketapod_website.Base.Text.{Bytes, bytes_eq}
use ketapod_website.Kids.{Decision, allow, block, unset}
use ketapod_website.Kids.Model.{ChildProfile, ParentalControls, ContentApproval}
use ketapod_website.Kids.Profiles.{get_profile, has_controls_of, controls_of}
use ketapod_website.Schema.{Error, Db}
use ketapod_website.Store.{
  Result, ok, err, M, pure, raise, reads, query, lift, or_fail, raise_if, ◌>>=◌, ◌>>◌,
}

abbrev pub is_approval_of : ℕ → ℕ → ContentApproval → Bool
is_approval_of profile book a = a.child_profile_id == profile && a.book_id == book

-- `GetContentApproval`
unfoldable pub approval_of : ℕ → ℕ → Db → Option ContentApproval
approval_of profile book db = find (is_approval_of profile book) db.content_approvals

abbrev pub decision_of : Option ContentApproval → Decision
decision_of none = unset
decision_of (some a) = a.decision

-- `GetApprovalDecision`: no row is the empty text.
unfoldable pub approval_decision : ℕ → ℕ → Db → Decision
unfolding approval_of
approval_decision profile book db = decision_of (approval_of profile book db)

abbrev pub overwrite_approval : ℕ → Decision → ℕ → ContentApproval → ContentApproval
overwrite_approval now d by a = record a { decision = d; decided_by = by; decided_at = now }

unfoldable pub new_approval : ℕ → ℕ → Decision → ℕ → Db → ContentApproval
new_approval profile book d by db = record {
  child_profile_id = profile;
  book_id = book;
  decision = d;
  decided_by = by;
  decided_at = db.now;
}

abbrev pub upsert_approval_found :
    ℕ → ℕ → Decision → ℕ → Db → Option ContentApproval → Result (Unit {0}) × Db
upsert_approval_found profile book d by db none = (
  ok tt,
  record db { content_approvals = new_approval profile book d by db ∷ db.content_approvals },
)
upsert_approval_found profile book d by db (some a) = (
  ok tt,
  record db {
    content_approvals =
        update_where (is_approval_of profile book) (overwrite_approval db.now d by)
          db.content_approvals;
  },
)

-- `UpsertContentApproval`
unfoldable pub upsert_approval : ℕ → ℕ → Decision → ℕ → Db → Result (Unit {0}) × Db
upsert_approval profile book d by db =
    upsert_approval_found profile book d by db (approval_of profile book db)

abbrev pub is_ruling : Decision → Bool
is_ruling allow = true
is_ruling block = true
is_ruling _ = false

-- `SetApproval`
unfoldable pub set_approval : ℕ → ℕ → ℕ → Decision → M (Unit {0})
set_approval parent profile book d = do
  raise_if (not (is_ruling d)) Error.invalid_input
  get_profile parent profile
  query (upsert_approval profile book d parent)

abbrev pub is_ruled_for : ℕ → ContentApproval → Bool
is_ruled_for profile a = a.child_profile_id == profile

-- `ListApprovals`, without the titles and covers that the query joins, in the order of the table.
unfoldable pub list_approvals : ℕ → ℕ → M (List ContentApproval)
list_approvals parent profile = do
  get_profile parent profile
  reads (λ db. select (is_ruled_for profile) db.content_approvals)

-- `DeleteContentApproval`
unfoldable pub remove_approval : ℕ → ℕ → Db → Result (Unit {0}) × Db
remove_approval profile book db = (
  ok tt,
  record db {
    content_approvals = select (λ a. not (is_approval_of profile book a)) db.content_approvals;
  },
)

-- `ClearApproval`
unfoldable pub clear_approval : ℕ → ℕ → ℕ → M (Unit {0})
clear_approval parent profile book = do
  get_profile parent profile
  query (remove_approval profile book)

abbrev pub nullable : Bytes → Option Bytes
nullable [] = none
nullable (c ∷ cs) = some (c ∷ cs)

abbrev pub text_or_empty : Option Bytes → Bytes
text_or_empty none = []
text_or_empty (some t) = t

abbrev pub put_pin : Bytes → ParentalControls → ParentalControls
put_pin hash c = record c { exit_pin_hash = nullable hash }

-- The statement `SetExitPin`: no row is no error.
unfoldable pub store_pin : ℕ → Bytes → Db → Result (Unit {0}) × Db
store_pin profile hash db = (
  ok tt,
  record db {
    parental_controls = update_where (has_controls_of profile) (put_pin hash) db.parental_controls;
  },
)

-- `toControls`: whether a PIN is set.
unfoldable pub has_exit_pin : ParentalControls → Bool
has_exit_pin c = elim (text_or_empty c.exit_pin_hash) [ [] ↦ false | x ∷ xs ↦ true ]

module _ (parse_uuid : Bytes → Option ℕ) (sha256_hex : Bytes → Bytes) where
  -- `hashPin`: the salt is the id as the caller spells it.
  unfoldable pub hash_pin : Bytes → Bytes → Bytes
  hash_pin profile pin = sha256_hex (profile ++ (b':' ∷ pin))

  -- `SetExitPin`
  unfoldable pub set_exit_pin : ℕ → Bytes → Bytes → M (Unit {0})
  set_exit_pin parent profile pin = do
    id ← lift (or_fail Error.not_found (parse_uuid profile))
    get_profile parent id
    raise_if (ltb (length pin) 4 || ltb 8 (length pin)) Error.invalid_input
    query (store_pin id (hash_pin profile pin))

  -- The answer to a stored hash.
  abbrev pub compare_pin : Bytes → Bytes → Result (Unit {0})
  compare_pin [] hash = err Error.no_pin_set
  compare_pin (c ∷ cs) hash = if bytes_eq (c ∷ cs) hash then ok tt else err Error.wrong_pin

  -- `VerifyExitPin`
  unfoldable pub verify_exit_pin : Bytes → Bytes → M (Unit {0})
  verify_exit_pin profile pin = do
    id ← lift (or_fail Error.not_found (parse_uuid profile))
    found ← reads (controls_of id)
    c ← lift (or_fail Error.not_found found)
    lift (compare_pin (text_or_empty c.exit_pin_hash) (hash_pin profile pin))
