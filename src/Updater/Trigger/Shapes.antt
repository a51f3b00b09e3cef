-- ===== src/Updater/Trigger/Shapes.antt =====
-- What the field readers of a trigger accept.
use pv_inverter_master.Base.{
  ℕ, zero, suc, ◌≡◌, refl, String, Bool, true, false, some, List, [], ◌∷◌, ◌++◌, arith, length,
}
use pv_inverter_master.Json.{
  Value, null, boolean, integer, fraction, text, array, object, Fields, get,
}
use pv_inverter_master.Sunspec.{codes}
use pv_inverter_master.Updater.Texts.{matches_sha, hex_then_end, is_empty}
use pv_inverter_master.Updater.Trigger.{
  Op, ValidatedTrigger, read_target, read_text, read_time, read_fields, target_fits,
}

pub read_target-some :
    (op : Op) (v : Value) (sha : String)
    → read_target op v ≡ some sha
    → (v ≡ text sha) × (target_fits op sha ≡ true)
unfolding read_target
read_target-some op (text s) sha h = ground arith
read_target-some op null sha h = absurd (cc)
read_target-some op (boolean b) sha h = absurd (cc)
read_target-some op (integer z) sha h = absurd (cc)
read_target-some op fraction sha h = absurd (cc)
read_target-some op (array xs) sha h = absurd (cc)
read_target-some op (object fs) sha h = absurd (cc)

pub read_text-some :
    (v : Value) (s : String) → read_text v ≡ some s → (v ≡ text s) × (is_empty s ≡ false)
unfolding read_text
read_text-some (text t) s h = ground arith
read_text-some null s h = absurd (cc)
read_text-some (boolean b) s h = absurd (cc)
read_text-some (integer z) s h = absurd (cc)
read_text-some fraction s h = absurd (cc)
read_text-some (array xs) s h = absurd (cc)
read_text-some (object fs) s h = absurd (cc)

pub read_time-some :
    (valid_time : String → Bool) (v : Value) (s : String)
    → read_time valid_time v ≡ some s
    → (v ≡ text s) × (valid_time s ≡ true)
unfolding read_time
read_time-some valid_time (text t) s h = ground arith
read_time-some valid_time null s h = absurd (cc)
read_time-some valid_time (boolean b) s h = absurd (cc)
read_time-some valid_time (integer z) s h = absurd (cc)
read_time-some valid_time fraction s h = absurd (cc)
read_time-some valid_time (array xs) s h = absurd (cc)
read_time-some valid_time (object fs) s h = absurd (cc)

pub read_fields-some :
    (valid_time : String → Bool) (op : Op) (fs : Fields) (t : ValidatedTrigger)
    → read_fields valid_time op fs ≡ some t
    → (t.op ≡ op)
      × (read_target op (get "target_sha" fs) ≡ some t.target_sha)
      × (read_time valid_time (get "requested_at" fs) ≡ some t.requested_at)
      × (read_text (get "requested_by" fs) ≡ some t.requested_by)
      × (read_text (get "nonce" fs) ≡ some t.nonce)
unfolding read_fields
read_fields-some valid_time op fs t h = ground arith

hex_then_end-newline :
    (n : ℕ) (cs : List ℕ)
    → length cs ≡ n
    → hex_then_end n cs ≡ true
    → hex_then_end n (cs ++ 10 ∷ []) ≡ true
unfolding hex_then_end
hex_then_end-newline zero [] e h = refl
hex_then_end-newline zero (c ∷ cs) e h = absurd (omega arith)
hex_then_end-newline (suc n) [] e h = absurd (omega arith)
hex_then_end-newline (suc n) (c ∷ cs) e h =
    let tail : length cs ≡ n = omega arith in ground (arith, hex_then_end-newline n cs tail)

-- A SHA of 40 characters that the pattern matches is still matched with a newline behind it.
pub matches_sha-newline :
    (s t : String)
    → matches_sha s ≡ true
    → length (codes s) ≡ 40
    → codes t ≡ codes s ++ 10 ∷ []
    → matches_sha t ≡ true
unfolding matches_sha
matches_sha-newline s t h e line = rw line (hex_then_end-newline 40 (codes s) e h)
