-- ===== src/Tests/Broadcast.antt =====
-- Examples for the broadcast notification.
use rsloop.Common.{◌≡◌, arith, List, [], ◌∷◌, ◌++◌}
use rsloop.Bytes.{exact_alloc}
use rsloop.AsyncEvent.{listen}
use rsloop.AsyncEvent.Run.{Act, listens, notifies, continues, occurrences, run, act}
use rsloop.AsyncEvent.Notified.{settled, settled-Notifies}

-- A waker that listens again while the notification is sent, and a second notification behind it.
abbrev two_listen : List Act
two_listen = listens ∷ listens ∷ []

abbrev listens_again : List Act
listens_again = continues 0 ∷ listens ∷ notifies ∷ continues 1 ∷ listens ∷ []

settled-Notifies_example :
    let e = settled exact_alloc (two_listen ++ (notifies ∷ listens_again)) in
    (e.notifying ≡ []) × (occurrences 1 e.sent ≡ 1)
unfolding run act listen
settled-Notifies_example = settled-Notifies exact_alloc two_listen listens_again 1 (omega arith)
