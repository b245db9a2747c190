-- ===== src/Hub/Tests.antt =====
-- The theorems on the hub at a hub whose one client never reads, and is dropped when its buffer is full.
use bazel_broker.Common.{ℕ, zero, suc, ◌≡◌, refl, none, [], arith}
use bazel_broker.Build.{Event, event_build}
use bazel_broker.Hub.{Hub, new_hub, subscribe, deliver_all, broadcast, drop, subscriber_count}
use bazel_broker.Hub.Laws.{
  IsValid, HubReach, here, next, subscribes, broadcasts, unsubscribes, HubReach-IsValid,
}

program : Unit {0}
unfolding new_hub subscribe deliver_all broadcast drop subscriber_count
program = tt

abbrev event : Event
event = record { type = event_build; seq = 1; build = none; builds = []; ts = none; alert = none }

new_hub-IsValid : IsValid new_hub
unfolding new_hub
new_hub-IsValid = record { live = tt; shut = tt; once = λ n. omega arith; unused = λ n m. refl }

unfoldable flood : ℕ → Hub
flood zero = (subscribe new_hub).0
flood (suc n) = broadcast (flood n) event

flooding : (n : ℕ) → HubReach new_hub (flood n)
unfolding flood
flooding zero = next here (subscribes new_hub)
flooding (suc n) = next (flooding n) (broadcasts (flood n) event)

-- The buffer takes 64 events, and the 65th drops the client.
full-stays : subscriber_count (flood 64) ≡ 1
unfolding program flood
full-stays = refl

over-drops : subscriber_count (flood 65) ≡ 0
unfolding program flood
over-drops = refl

HubReach-IsValid_example : IsValid (drop (flood 65) 0)
HubReach-IsValid_example =
    HubReach-IsValid (next (flooding 65) (unsubscribes (flood 65) 0)) new_hub-IsValid
