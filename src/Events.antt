-- ===== src/Events.antt =====
-- events/simple.go: a channel of events. The calls of its methods send commands, in some order, which
-- one goroutine handles; what that goroutine does to the channels of the subscribers is its log.
pub mod Removal
pub mod Views
pub mod Calls
pub mod Tests
use defradg.Prelude.{
  ℕ, zero, suc, ◌+◌, ◌-◌, Bool, true, false, List, [], ◌∷◌, ◌++◌, map, take, length, Option, none,
  some, ◌==◌, if◌then◌else◌, Error, Result, ok, err, subscribed_to_closed_chan,
}
use defradg.Prelude.Exec.{Exec, pure, raise}

-- What a Go channel carries for a subscriber, which is named by the number of its channel.
pub data Command (T : Type 0) : Type 0 where
  close_command : Command T
  subscribe_command unsubscribe_command : ℕ → Command T
  publish_command : T → Command T

-- `subscriber <- item`, and `close(subscriber)`. A send to a buffer that is full waits for the
-- subscriber. The buffers and their bounds are not here: the log is what the goroutine does as long as every
-- subscriber takes what it is sent, and where one does not, nothing behind that send happens.
pub data Effect (T : Type 0) : Type 0 where
  sent : ℕ → T → Effect T
  closed : ℕ → Effect T

-- What was sent on the command channel, and how many channels were made.
pub record SimpleChannel (T : Type 0) : Type 0 where
  pub commands : List (Command T)
  pub made : ℕ
  pub is_closed : Bool

-- The loop that looks for the subscriber, from a position on.
unfoldable pub find_index : ℕ → List ℕ → ℕ → Option ℕ
find_index command [] i = none
find_index command (subscriber ∷ rest) i =
    let later = find_index command rest (i + 1) in if command == subscriber then some i else later

-- `subscribers[i]`, of a position that there is.
abbrev pub item_at : List ℕ → ℕ → ℕ
item_at [] i = 0
item_at (x ∷ xs) zero = x
item_at (x ∷ xs) (suc i) = item_at xs i

-- `subscribers[i] = v`
abbrev pub update : ℕ → ℕ → List ℕ → List ℕ
update i v [] = []
update zero v (x ∷ xs) = v ∷ xs
update (suc i) v (x ∷ xs) = x ∷ update i v xs

-- The last subscriber takes the place of the one that goes.
unfoldable pub swap_remove : ℕ → List ℕ → List ℕ
swap_remove index subscribers =
    take (length subscribers - 1)
      (update index (item_at subscribers (length subscribers - 1)) subscribers)

module _ {T : Type 0} where
  abbrev pub new_simple_channel : SimpleChannel T
  new_simple_channel = record { commands = []; made = 0; is_closed = false }

  abbrev send : Command T → SimpleChannel T → SimpleChannel T
  send cmd c = record c { commands = c.commands ++ (cmd ∷ []) }

  unfoldable pub subscribe : Exec (SimpleChannel T) ℕ
  subscribe c =
      if c.is_closed
      then (err subscribed_to_closed_chan, c)
      else (ok c.made, record (send (subscribe_command c.made) c) { made = c.made + 1 })

  unfoldable pub unsubscribe : ℕ → SimpleChannel T → SimpleChannel T
  unsubscribe ch c = if c.is_closed then c else send (unsubscribe_command ch) c

  unfoldable pub publish : T → SimpleChannel T → SimpleChannel T
  publish item c = if c.is_closed then c else send (publish_command item) c

  -- Close returns when its command has been handled.
  unfoldable pub close : SimpleChannel T → SimpleChannel T
  close c = if c.is_closed then c else send close_command (record c { is_closed = true })

  abbrev pub removed : ℕ → List ℕ → Option ℕ → List ℕ × List (Effect T)
  removed command subscribers none = (subscribers, [])
  removed command subscribers (some index) = (swap_remove index subscribers, closed command ∷ [])

  -- One command that is not a close: the subscribers after it, and what happens.
  unfoldable pub handle : Command T → List ℕ → List ℕ × List (Effect T)
  handle close_command subscribers = (subscribers, map closed subscribers)
  handle (subscribe_command command) subscribers = (subscribers ++ (command ∷ []), [])
  handle (unsubscribe_command command) subscribers =
      removed command subscribers (find_index command subscribers 0)
  handle (publish_command item) subscribers = (subscribers, map (λ s. sent s item) subscribers)

  abbrev pub is_close : Command T → Bool
  is_close close_command = true
  is_close _ = false

  -- The goroutine returns at the first close.
  unfoldable pub handle_channel : List (Command T) → List ℕ → List (Effect T)
  handle_channel [] subscribers = []
  handle_channel (cmd ∷ cmds) subscribers =
      let after = handle cmd subscribers in
      let rest = handle_channel cmds after.0 in if is_close cmd then after.1 else after.1 ++ rest
