-- ===== src/Tests/Filters.antt =====
-- Runs of the filter theorems.
use nawa.Common.{ℕ, ◌≡◌, refl, true, false, List, [], ◌∷◌, some, ◌⊎◌, inr, All, codes, beq, ◌&&◌}
use nawa.Common.Table.{text_eq, lookup}
use nawa.Common.Result.{ok}
use nawa.Util.Strings.{split_string}
use nawa.Request.Env
use nawa.Filter.Types.{AccessFilter, BlockFilter, AuthFilter, AccessFilterList}
use nawa.Filter.Matching.{matches_code}
use nawa.Filter.Matching.{path_condition}
use nawa.Filter.Matching.Laws.{Begins, path_condition-Says}
use nawa.Filter.Apply.{applies, apply_filters, apply_code, answer, page, auth_session}
use nawa.Filter.Apply.Laws.{Skipped, FirstAt, apply_filters_blocked}
use nawa.Filter.Apply.Auth.{Remembered, Accepted, apply_filters_pass}
use nawa.Tests.Sample.{connection, store, outside, filter}

abbrev block : BlockFilter
block = record { filter = filter ((codes "a" ∷ []) ∷ []); status = 404 }

abbrev elsewhere : BlockFilter
elsewhere = record { filter = filter ((codes "x" ∷ []) ∷ []); status = 404 }

-- Without sessions, user "u" with password "p" is let in.
abbrev auth : AuthFilter
auth = record {
  filter = filter [];
  auth_function = some λ user password. beq user (codes "u") && beq password (codes "p");
  auth_name = codes "realm";
  use_sessions = false;
}

abbrev list : List BlockFilter → AccessFilterList
list blocks = record {
  filters_enabled = true;
  block_filters = blocks;
  auth_filters = auth ∷ [];
  forward_filters = [];
}

is_skipped : applies elsewhere.filter (Env.get_request_path connection.request.env) ≡ ok false
unfolding apply_code matches_code Env.get_request_path lookup beq
is_skipped = refl

is_applied : applies block.filter (Env.get_request_path connection.request.env) ≡ ok true
unfolding apply_code matches_code Env.get_request_path lookup beq
is_applied = refl

apply_filters_blocked_example :
    apply_filters outside (list (elsewhere ∷ block ∷ [])) store connection
    ≡ (store, answer 404 (page (codes "no") 404) connection, ok true)
apply_filters_blocked_example =
    apply_filters_blocked outside (list (elsewhere ∷ block ∷ [])) store connection (elsewhere ∷ [])
      block [] refl refl (is_skipped, tt) is_applied

is_passed : (apply_filters outside (list (elsewhere ∷ [])) store connection).2 ≡ ok false
unfolding apply_code matches_code Env.get_request_path Env.get lookup beq split_string
is_passed = refl

apply_filters_pass_example :
    let path = Env.get_request_path connection.request.env in
    All (Skipped (λ (b : BlockFilter). b.filter) path) (elsewhere ∷ [])
    × Unit {0}
    × (All (Skipped (λ (a : AuthFilter). a.filter) path) (auth ∷ [])
        ⊎ ((i : ℕ) × (f : AuthFilter) × FirstAt
              (λ (a : AuthFilter). a.filter)
              path
              0
              (auth ∷ [])
              i
              f
            × (Remembered outside f i store connection
                ⊎ Accepted outside f (auth_session outside f i store connection).1)))
apply_filters_pass_example =
    apply_filters_pass outside (list (elsewhere ∷ [])) store connection refl is_passed

-- A filter for all paths that do not begin with ab.
abbrev not_ab : AccessFilter
not_ab = record (filter ((codes "ab" ∷ []) ∷ [])) { invert_path_filter = true }

other_element : ¬ Begins (codes "ab" ∷ []) (codes "a" ∷ [])
other_element (rest, e) = cc e

path_condition-Says_example : path_condition not_ab (codes "a" ∷ []) ≡ true
path_condition-Says_example =
    (path_condition-Says not_ab (codes "a" ∷ [])).1 (inr (inr (refl, (other_element, tt))))
