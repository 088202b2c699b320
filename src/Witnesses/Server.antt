-- ===== src/Witnesses/Server.antt =====
-- The theorems on applying a bundle, at examples.
use ronny_email_worker.Prelude.{refl, true, none, some, leb, arith, List, [], ◌∷◌}
use ronny_email_worker.Text.{codes}
use ronny_email_worker.Models.{Suggestion, SuggestionStatus}
use ronny_email_worker.Scope.{get_account, get_container}
use ronny_email_worker.Staleness.{check, check_in, check_message, check_placement, placement_at}
use ronny_email_worker.Imap.Item.{apply_one}
use ronny_email_worker.Imap.Item.Second.{OneStep, apply_one_cases}
use ronny_email_worker.Imap.Perform.{discard}
use ronny_email_worker.Imap.Perform.Discarding.{Left, discard-Left}
use ronny_email_worker.Imap.Apply.{apply_each, apply_bundle}
use ronny_email_worker.Imap.Apply.Resume.{Agrees, apply_each_stopped}
use ronny_email_worker.Imap.Apply.Refused.{Refuses, apply_each_stale}
use ronny_email_worker.Imap.Apply.Rollup.{Becomes, apply_bundle-Becomes}
use ronny_email_worker.Witnesses.Data.{same_text, home, db, item, lost, accepted, counting, run}

-- Two items that no folder holds any longer.
abbrev two_lost : List Suggestion
two_lost =
    lost SuggestionStatus.accepted
    ∷ record (lost SuggestionStatus.accepted) { id = 6; message_id = some 12 }
    ∷ []

apply_one_cases_example :
    let (r', e) = apply_one same_text counting none run (item SuggestionStatus.accepted) in
    OneStep same_text run (item SuggestionStatus.accepted) r' e
apply_one_cases_example =
    apply_one_cases same_text counting none run (item SuggestionStatus.accepted)

apply_each_stale_example :
    let (r', e) = apply_each same_text counting none (leb 5) run two_lost in
    Refuses (leb 5) run two_lost r' e
unfolding check check_in check_message check_placement placement_at get_container
apply_each_stale_example =
    apply_each_stale same_text counting none (leb 5) run two_lost
      ((λ h. ground (arith, h)), ((λ h. ground (arith, h)), tt))

discard-Left_example :
    let (last, answer) = discard counting (codes "Old") true (some (codes "/")) 0 in
    Left counting (codes "Old") (some (codes "/")) 0 last answer
discard-Left_example = discard-Left counting (codes "Old") (some (codes "/")) true 0

apply_each_stopped_example :
    let (r', e) = apply_each same_text counting none (leb 1) run accepted.suggestions in
    Agrees same_text counting none (leb 1) run accepted.suggestions r' e
apply_each_stopped_example =
    apply_each_stopped same_text counting none (leb 1) run accepted.suggestions

apply_bundle-Becomes_example :
    let (r, e) = apply_bundle same_text counting none (leb 5) db accepted 0 in Becomes r.bundle e
unfolding get_account
apply_bundle-Becomes_example =
    apply_bundle-Becomes same_text counting none (leb 5) db accepted 0 home refl refl
