-- ===== src/Tests/Stores.antt =====
-- src/pkg/store/membership.go at small tables.
use failure_detector.Prelude.{◌≡◌, refl, List, [], ◌∷◌, some, arith, All, true}
use failure_detector.Prelude.Map.{lookup, insert}
use failure_detector.Go.Text.{text_discrete, decimal}
use failure_detector.Go.Netip.{addr_to_string, dotted}
use failure_detector.Node.{NodeId-discrete, endpoint_to_string}
use failure_detector.Store.{
  Store, MemberEntry, alive, suspect, failed, left, key, row, new, update_member_entry,
  merge_full_list, apply_locked,
}
use failure_detector.Store.Invariant.{IsWf, merges, removes, run, run-new-IsWf}
use failure_detector.Store.Rank.{RankLe, suspicion, Outcome, update_member_entry-Outcome}
use failure_detector.Store.Merge.{IsSane, Covered, bumped}
use failure_detector.Store.Join.{merge_rises, merge_covers, merge_full_list-merge_full_list}
use failure_detector.Store.Self.{update_refutes}
use failure_detector.Store.Precedence.{later_heartbeat_wins, stale_apply_wins}
use failure_detector.Tests.Samples.{node_a, node_b, node_c, member, sample_config}

keys : Unit {0}
unfolding lookup insert text_discrete decimal addr_to_string dotted endpoint_to_string
    NodeId-discrete
keys = tt

-- The table of a new node.
abbrev fresh : Store
fresh = new node_a sample_config 50

-- What another node tells: itself alive, a third node suspect.
abbrev news : List MemberEntry
news = member node_b 100 alive 60 ∷ member node_c 100 suspect 40 ∷ []

abbrev joined : Store
joined = merge_full_list 70 news fresh

news-IsSane : All (IsSane 70) news
news-IsSane = (
  record { not_future = omega arith; can_grow = omega arith },
  (record { not_future = omega arith; can_grow = omega arith }, tt),
)

row_b : row (key node_b) joined ≡ some (member node_b 100 alive 60)
unfolding keys new merge_full_list
row_b = refl

run-new-IsWf_example :
    IsWf (run (merges 70 news ∷ removes node_c ∷ []) (new node_a sample_config 50))
run-new-IsWf_example = run-new-IsWf (merges 70 news ∷ removes node_c ∷ []) node_a sample_config 50

merge_covers_example : All (Covered (merge_full_list 70 news fresh)) news
merge_covers_example = merge_covers 70 news fresh news-IsSane

abbrev later_news : List MemberEntry
later_news = member node_b 100 failed 65 ∷ []

merge_rises_example :
    (e : MemberEntry) × (row (key node_b) (merge_full_list 90 later_news joined) ≡ some e)
    × RankLe (suspicion joined) (member node_b 100 alive 60) e
merge_rises_example =
    merge_rises 90 later_news joined (omega arith, tt) (key node_b) (member node_b 100 alive 60)
      row_b

merge_full_list-merge_full_list_example :
    merge_full_list 99 news (merge_full_list 70 news fresh) ≡ merge_full_list 70 news fresh
unfolding new
merge_full_list-merge_full_list_example =
    merge_full_list-merge_full_list 70 99 news fresh news-IsSane
      (λ e. refl, (λ e. ground arith, tt))

row_a : row (key node_a) fresh ≡ some (member node_a 100 alive 50)
unfolding keys new
row_a = refl

update_refutes_example :
    row (key node_a) (update_member_entry 70 (member node_a 100 suspect 50) fresh)
    ≡ some (bumped 70 (member node_a 100 alive 50))
unfolding new
update_refutes_example =
    update_refutes 70 (member node_a 100 suspect 50) (member node_a 100 alive 50) fresh refl row_a
      refl refl refl refl

update_member_entry-Outcome_example :
    Outcome 70
      (member node_b 100 alive 60)
      fresh
      (update_member_entry 70 (member node_b 100 alive 60) fresh)
update_member_entry-Outcome_example =
    update_member_entry-Outcome 70 (member node_b 100 alive 60) fresh

-- A node that has left comes back by a later heartbeat.
abbrev gone : Store
gone = merge_full_list 70 (member node_b 100 left 60 ∷ []) fresh

row-gone : row (key node_b) gone ≡ some (member node_b 100 left 60)
unfolding keys new merge_full_list
row-gone = refl

later_wins :
    row (key node_b) (update_member_entry 90 (member node_b 100 alive 61) gone)
    ≡ some (member node_b 100 alive 61)
unfolding new merge_full_list keys
later_wins =
    later_heartbeat_wins 90 (member node_b 100 alive 61) (member node_b 100 left 60) gone row-gone
      (λ e. ground arith) refl refl (omega arith)

joined_on : suspicion joined ≡ true
unfolding keys new merge_full_list
joined_on = refl

-- Node b refutes a suspicion, and a late verdict of an older scan suspects it again.
stale_wins :
    (row (key node_b) (update_member_entry 90 (member node_b 101 alive 85) joined)
      ≡ some (member node_b 101 alive 85))
    × ((r : MemberEntry) × (row (key node_b) (
            apply_locked 95 node_b 100 suspect
              (update_member_entry 90 (member node_b 101 alive 85) joined))
          ≡ some r)
        × (r.incarnation ≡ 100)
        × (r.state ≡ suspect))
stale_wins =
    stale_apply_wins 90 95 (member node_b 100 alive 60) (member node_b 101 alive 85) suspect joined
      joined_on row_b refl (omega arith)
