-- ===== src/Reveal/Tests.antt =====
-- One run of the hook, and instances of the theorems.
use mathlib.Core.List.{Memᴰ}
use tenancit.Base.{◌≡◌, refl, true, false, none, some, String}
use tenancit.Reveal.Defs.{
  Request, Hook, cancel_and_erase, is_current, show_request, show, resolve, hide, change_tenant,
  change_token, start, Reach, here, next, shown, resolved,
}
use tenancit.Reveal.Safety.{IsFresh, reachable-IsSafe}
use tenancit.Reveal.Progress.{last_answer_shown, late_answer_dropped}
use tenancit.Reveal.Loading.{loading-waits}

-- A server that answers with the tenant's name.
abbrev Serves : Request → String → Type 0
Serves q r = q.tenant ≡ r

abbrev fresh : Hook String String
fresh = start "acme" "token"

abbrev asked : Hook String String
asked = show "acme" fresh

abbrev request : Request
request = show_request "acme" fresh

abbrev answered : Hook String String
answered = (resolve request "acme" asked).0

asks : Reach Serves fresh asked
asks = next here (shown "acme")

waits : Memᴰ request asked.pending
unfolding show
waits = Memᴰ.head refl

names : Serves request "acme"
unfolding show_request
names = refl

answers : Reach Serves fresh answered
answers = next asks (resolved request "acme" waits names)

run :
    (answered.resources ≡ some "acme")
    × (answered.is_loading ≡ false)
    × (answered.mounted ≡ true)
    × ((hide answered).resources ≡ none)
unfolding start show show_request resolve is_current hide
run = (refl, refl, refl, refl)

reachable-IsSafe_example : IsFresh Serves answered "acme"
reachable-IsSafe_example = reachable-IsSafe Serves "acme" "token" answers "acme" run.2 run.0

mounts : (fresh.mounted ≡ true) × (asked.mounted ≡ true) × (asked.is_loading ≡ true)
unfolding start show cancel_and_erase
mounts = (refl, refl, refl)

last_answer_shown_example :
    ((resolve (show_request fresh.tenant fresh) "r" (show fresh.tenant fresh)).1 ≡ true)
    × ((resolve (show_request fresh.tenant fresh) "r" (show fresh.tenant fresh)).0.resources
        ≡ some "r")
    × ((resolve (show_request fresh.tenant fresh) "r" (show fresh.tenant fresh)).0.is_loading
        ≡ false)
    × ((resolve (show_request fresh.tenant fresh) "r" (show fresh.tenant fresh)).0.error ≡ none)
last_answer_shown_example = last_answer_shown Serves "acme" "token" here "r" mounts.0

late_answer_dropped_example :
    (((resolve request "r" (hide asked)).1 ≡ false)
      × ((resolve request "r" (hide asked)).0.resources ≡ none))
    × (((resolve request "r" (change_tenant "beta" asked)).1 ≡ false)
        × ((resolve request "r" (change_tenant "beta" asked)).0.resources ≡ none))
    × (((resolve request "r" (change_token "beta" asked)).1 ≡ false)
        × ((resolve request "r" (change_token "beta" asked)).0.resources ≡ none))
late_answer_dropped_example =
    late_answer_dropped Serves "acme" "token" asks request waits mounts.1 "r" "beta"

loading-waits_example : (q : Request) × Memᴰ q asked.pending × (q.epoch ≡ asked.epoch)
loading-waits_example = loading-waits Serves "acme" "token" asks mounts.1 mounts.2
