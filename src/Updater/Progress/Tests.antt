-- ===== src/Updater/Progress/Tests.antt =====
-- The theorems of the progress broadcaster at two attempts.
use pv_inverter_master.Base.{◌≡◌, refl, String, true, List, [], ◌∷◌, arith, pos}
use pv_inverter_master.Json.{
  null, integer, text, array, object, Items, nil, cons, Fields, end, field, get,
}
use pv_inverter_master.Updater.Status.{FileText, json, load_status}
use pv_inverter_master.Updater.Progress.{new}
use pv_inverter_master.Updater.Progress.Once.{
  Poll, Grows, watch, payloads, payloads_of, watch_sends_once,
}
use pv_inverter_master.Updater.Progress.Attempts.{second_attempt_silent}

abbrev entry : String → Fields
entry phase = field "phase" (text phase) end

abbrev file_of : Items → FileText
file_of history = json (
    object (
      field "schema_version" (integer (pos 1))
        (field "current" null (field "history" (array history) end))))

abbrev poll_of : Items → Poll
poll_of history = record { alive = λ c. true; file = file_of history }

abbrev begun : Items
begun = cons (object (entry "trigger_received")) nil

abbrev backed_up : Items
backed_up = cons (object (entry "trigger_received")) (cons (object (entry "backup")) nil)

abbrev polls : List Poll
polls = poll_of begun ∷ poll_of backed_up ∷ []

abbrev history : List Fields
history = entry "trigger_received" ∷ entry "backup" ∷ []

growing : Grows [] polls history
unfolding load_status get
growing =
    (entry "trigger_received" ∷ [], refl, (refl, tt), (entry "backup" ∷ [], refl, (refl, tt), refl))

watch_sends_once_example : payloads_of (watch polls (new ("browser" ∷ []))).1 ≡ payloads 0 history
watch_sends_once_example = watch_sends_once polls history ("browser" ∷ []) growing

second_attempt_silent_example :
    let b = (watch polls (new [])).0 in watch (poll_of begun ∷ []) b ≡ (b, [])
unfolding load_status get
second_attempt_silent_example =
    second_attempt_silent polls (poll_of begun ∷ []) history [] growing
      (omega arith, (refl, tt), tt)
