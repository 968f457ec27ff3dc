-- ===== src/MotorEvents/Topics.antt =====
-- include/hardware_driver/event/motor_events.hpp: what a topic tells of its event.
use Prim.Native.Char.{Char}
use Prim.Native.String.{◌++◌}
use text.Mathlib.TextLemmas.{nil-append, cons-append, append_assoc, append_cancel_left}
use hardware_driver.Base.{
  ℕ, ◌≡◌, ◌↔◌, sym, ap, ◌∙◌, String, Option, none, some, inl, inr, arith, subst, ◌==◌,
  if◌then◌else◌, Bool-cases, to_string, to_string_inj, to_string-IsNumeral, IsNumeral, IsFree,
  IsNumeral-IsFree, last_part,
}
use hardware_driver.MotorEvents.{
  MotorEvent, motor_status_event, motor_batch_status_event, motor_function_result_event,
  motor_parameter_result_event, get_topic,
}

-- What an event is about: its class, its interface, and its motor where it names one.
abbrev pub Subject : Type 0
Subject = ℕ × String × Option ℕ

abbrev pub subject : MotorEvent → Subject
subject (motor_status_event interface id status) = (1, interface, some id)
subject (motor_batch_status_event interface statuses) = (2, interface, none)
subject (motor_function_result_event interface id op_code success) = (3, interface, some id)
subject (motor_parameter_result_event interface id address data_type value) =
    (4, interface, some id)

abbrev dot : Char
dot = "."

-- The three parts of a topic.
abbrev topic : String → String → String → String
topic interface middle last =
    (("motor." ++ interface) ++ (String.◌∷◌ dot middle)) ++ (String.◌∷◌ dot last)

middle_of : Option ℕ → String
middle_of none = "batch"
middle_of (some id) = to_string id

last_of : ℕ → String
last_of class = if class == 3 then "function" else if class == 4 then "parameter" else "status"

topic_parts :
    (a b m n l k : String)
    → IsFree dot m
    → IsFree dot n
    → IsFree dot l
    → IsFree dot k
    → topic a m l ≡ topic b n k
    → (a ≡ b) × (m ≡ n) × (l ≡ k)
topic_parts a b m n l k fm fn fl fk h =
    let p = last_part dot _ _ l k fl fk h in
    let q = last_part dot _ _ m n fm fn p.0 in (append_cancel_left "motor." a b q.0, q.1, p.1)

number-append : (s m l : String) → ((s ++ ".") ++ m) ++ l ≡ (s ++ (String.◌∷◌ dot m)) ++ l
number-append s m l =
    ap (λ t. t ++ l)
      (append_assoc s "." m
        ∙ ap (λ t. s ++ t) (cons-append dot "" m ∙ ap (String.◌∷◌ dot) (nil-append m)))

get_topic-parts :
    (e : MotorEvent)
    → get_topic e ≡ topic (subject e).1 (middle_of (subject e).2) (last_of (subject e).0)
unfolding get_topic middle_of last_of
get_topic-parts (motor_status_event a i x) = number-append ("motor." ++ a) (to_string i) ".status"
get_topic-parts (motor_batch_status_event a x) =
    sym (append_assoc ("motor." ++ a) ".batch" ".status")
get_topic-parts (motor_function_result_event a i x y) =
    number-append ("motor." ++ a) (to_string i) ".function"
get_topic-parts (motor_parameter_result_event a i x y z) =
    number-append ("motor." ++ a) (to_string i) ".parameter"

number-IsFree : (i : ℕ) → IsFree dot (to_string i)
number-IsFree i = IsNumeral-IsFree dot (to_string i) (inl (omega arith)) (to_string-IsNumeral i)

middle_of-IsFree : (o : Option ℕ) → IsFree dot (middle_of o)
unfolding middle_of
middle_of-IsFree none = omega arith
middle_of-IsFree (some i) = number-IsFree i

last_of-IsFree : (class : ℕ) → IsFree dot (last_of class)
unfolding last_of
last_of-IsFree class = elim (Bool-cases (class == 3)) [
  | inl e ↦ rw e (omega arith)
  | inr e ↦ rw e (elim (Bool-cases (class == 4)) [
    | inl e' ↦ rw e' (omega arith)
    | inr e' ↦ rw e' (omega arith)
  ])
]

not_numeral : IsNumeral "batch" → ⊥
not_numeral h = omega (arith, h.1)

same_subject :
    (e e' : MotorEvent)
    → (subject e).1 ≡ (subject e').1
    → middle_of (subject e).2 ≡ middle_of (subject e').2
    → last_of (subject e).0 ≡ last_of (subject e').0
    → subject e ≡ subject e'
unfolding middle_of last_of
same_subject (motor_status_event a i x) (motor_status_event a' i' x') same same_middle same_last =
    λ n. (1, same n, some (to_string_inj i i' same_middle n))
same_subject (motor_status_event a i x) (motor_batch_status_event a' x') same same_middle
      same_last =
    absurd (not_numeral (subst IsNumeral same_middle (to_string-IsNumeral i)))
same_subject (motor_status_event a i x) (motor_function_result_event a' i' x' y') same same_middle
      same_last =
    cc
same_subject (motor_status_event a i x) (motor_parameter_result_event a' i' x' y' z') same
      same_middle same_last =
    cc
same_subject (motor_batch_status_event a x) (motor_status_event a' i' x') same same_middle
      same_last =
    absurd (not_numeral (subst IsNumeral (sym same_middle) (to_string-IsNumeral i')))
same_subject (motor_batch_status_event a x) (motor_batch_status_event a' x') same same_middle
      same_last =
    λ n. (2, same n, none)
same_subject (motor_batch_status_event a x) (motor_function_result_event a' i' x' y') same
      same_middle same_last =
    cc
same_subject (motor_batch_status_event a x) (motor_parameter_result_event a' i' x' y' z') same
      same_middle same_last =
    cc
same_subject (motor_function_result_event a i x y) (motor_status_event a' i' x') same same_middle
      same_last =
    cc
same_subject (motor_function_result_event a i x y) (motor_batch_status_event a' x') same same_middle
      same_last =
    cc
same_subject (motor_function_result_event a i x y) (motor_function_result_event a' i' x' y') same
      same_middle same_last =
    λ n. (3, same n, some (to_string_inj i i' same_middle n))
same_subject (motor_function_result_event a i x y) (motor_parameter_result_event a' i' x' y' z')
      same same_middle same_last =
    cc
same_subject (motor_parameter_result_event a i x y z) (motor_status_event a' i' x') same same_middle
      same_last =
    cc
same_subject (motor_parameter_result_event a i x y z) (motor_batch_status_event a' x') same
      same_middle same_last =
    cc
same_subject (motor_parameter_result_event a i x y z) (motor_function_result_event a' i' x' y') same
      same_middle same_last =
    cc
same_subject (motor_parameter_result_event a i x y z) (motor_parameter_result_event a' i' x' y' z')
      same same_middle same_last =
    λ n. (4, same n, some (to_string_inj i i' same_middle n))

-- A topic names its event's class, interface and motor, and nothing else: two events have the same
-- topic just when they agree in these, whatever characters the interfaces' names hold.
pub get_topic-eq-get_topic :
    (e e' : MotorEvent) → (get_topic e ≡ get_topic e') ↔ (subject e ≡ subject e')
get_topic-eq-get_topic e e' = (
  λ h.
      let p =
        topic_parts (subject e).1 (subject e').1 (middle_of (subject e).2)
          (middle_of (subject e').2) (last_of (subject e).0) (last_of (subject e').0)
          (middle_of-IsFree (subject e).2) (middle_of-IsFree (subject e').2)
          (last_of-IsFree (subject e).0) (last_of-IsFree (subject e').0)
          (sym (get_topic-parts e) ∙ h ∙ get_topic-parts e') in
      same_subject e e' p.0 p.1 p.2,
  λ h.
      get_topic-parts e
      ∙ ap (λ (s : Subject). topic s.1 (middle_of s.2) (last_of s.0)) h
      ∙ sym (get_topic-parts e'),
)
