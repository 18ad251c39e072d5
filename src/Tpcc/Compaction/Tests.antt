-- ===== src/Tpcc/Compaction/Tests.antt =====
-- A tablet that compacts after it was asked to, and one without loaned parts.
use benchhelpers.Prelude.{
  String, [], chars, drop_chars, err, false, is_space, map, none, ok, other_exception, refl, some,
  suc, take_chars, true, words, zero, ◌∷◌, ◌≡◌,
}
use benchhelpers.Prelude.Sorting.{sort_by}
use benchhelpers.Tpcc.Compaction.{extract_loaned_parts, Event, Pages, process_task, generate_tasks}
use benchhelpers.Tpcc.Compaction.Headers.{Options, viewer_headers}

abbrev idle : String
idle = "<p>Tablet</p>"

abbrev pages : Pages
pages zero = some idle
pages (suc zero) = some "Forced compaction: Pending<br>"
pages (suc (suc zero)) = some "Forced compaction: Compacting<br>"
pages (suc (suc (suc i))) = some idle

loaned : extract_loaned_parts "<h4>Loaned parts</h4><pre>a b</pre>" ≡ some ("a" ∷ "b" ∷ [])
unfolding extract_loaned_parts words take_chars drop_chars chars is_space
loaned = refl

skipped :
    process_task (λ t. true) 5 pages (record { index = 1; count = 1; tablet_id = 7 }) false
    ≡ ok (some (Event.skip 1 1 7 ∷ []))
unfolding process_task extract_loaned_parts take_chars drop_chars chars
skipped = refl

in_order : map (λ t. t.tablet_id) (generate_tasks (9 ∷ 4 ∷ 7 ∷ [])) ≡ 4 ∷ 7 ∷ 9 ∷ []
unfolding generate_tasks sort_by
in_order = refl

abbrev options : Options
options = record {
  auth_mode = "OAuth";
  token_file = "~/.ydb/token";
  ydb_access_token_credentials = some "token";
  ydb_anonymous_credentials = none;
}

-- The default token file is not found by its short name, and the token is not bound.
unbound :
    viewer_headers (λ s. s) (λ s. "/home/me/.ydb/token") (λ s. none) options ≡ err other_exception
unfolding viewer_headers
unbound = refl
