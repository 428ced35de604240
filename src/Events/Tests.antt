-- ===== src/Events/Tests.antt =====
-- events/simple.go on concrete calls, and the theorems of Events there.
use defradg.Prelude.{ℕ, ◌≡◌, refl, List, [], ◌∷◌, err, subscribed_to_closed_chan}
use defradg.Events.{
  subscribe, unsubscribe, publish, close, new_simple_channel, handle, handle_channel, find_index,
  swap_remove,
}
use defradg.Events.Views.{waiting, item, done, view, promised}
use defradg.Events.Calls.{
  Call, subscribe_call, unsubscribe_call, publish_call, close_call, call, run_calls, log_of,
  commands_of, view-log_of,
}

abbrev calls : List (Call ℕ)
calls =
    subscribe_call
    ∷ subscribe_call
    ∷ publish_call 7
    ∷ unsubscribe_call 0
    ∷ publish_call 8
    ∷ close_call
    ∷ publish_call 9
    ∷ subscribe_call
    ∷ []

first_sees : view 0 (log_of calls) ≡ item 7 ∷ done ∷ []
unfolding run_calls call subscribe unsubscribe publish close handle_channel handle find_index
    swap_remove
first_sees = refl

second_sees : view 1 (log_of calls) ≡ item 7 ∷ item 8 ∷ done ∷ []
unfolding run_calls call subscribe unsubscribe publish close handle_channel handle find_index
    swap_remove
second_sees = refl

closed_refuses : (subscribe (run_calls calls new_simple_channel)).0 ≡ err subscribed_to_closed_chan
unfolding run_calls call subscribe unsubscribe publish close
closed_refuses = refl

view-log_of_example : view 1 (log_of calls) ≡ promised 1 waiting (commands_of 0 calls)
view-log_of_example = view-log_of 1 calls
