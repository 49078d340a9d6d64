-- ===== src/Scheduler/Requests/Validation.antt =====
-- What AddMessage accepts, and what it makes of it.
use split_flap_display_web.Prelude.{
  ◌≤◌, ◌<◌, ◌≡◌, refl, subst, ap, ◌↔◌, ◌⊎◌, inl, Bool, true, false, Option, none, some, Text, codes,
  text_eq_iff, length, ltb, leb, ℤ, is_positive, arith,
}
use split_flap_display_web.Models.{Priority, priority_normal, priority_high, parse_align}
use split_flap_display_web.Models.Parsing.{IsPriority}
use split_flap_display_web.Store.{count_active}
use split_flap_display_web.Scheduler.{Scheduler}
use split_flap_display_web.Scheduler.Requests.{
  Input, Draft, Result, ok, err, AddError, ◌>>=◌, refuse_if, validate, or_invalid, positive_or,
  known_priority,
}

-- A number that may be left out must be positive where it is given.
abbrev pub Chosen : ℤ → Option ℤ → ℤ → Type 0
Chosen default given v =
    ((given ≡ none) × (v ≡ default)) ⊎ ((given ≡ some v) × (is_positive v ≡ true))

abbrev pub ChosenPriority : Option Priority → Priority → Type 0
ChosenPriority given p =
    ((given ≡ none) × (p ≡ priority_normal)) ⊎ ((given ≡ some p) × IsPriority p)

pub record Checked (i : Input) (s : Scheduler) (d : Draft) : Type 0 where
  pub short : length i.text ≤ 256
  pub room : count_active s.heap s.store < 100
  pub aligned : parse_align i.align ≡ some d.align
  pub target : Chosen s.default_target_count i.target_display_count d.target_display_count
  pub duration : Chosen s.default_display_dur i.display_duration d.display_duration
  pub prioritised : ChosenPriority i.priority d.priority

-- A check that is passed has a value, with which the next one is passed.
>>=-ok {κ μ} :
    {V : Type κ} {W : Type μ} (checked : Result V) (next : V → Result W) (w : W)
    → (checked >>= next) ≡ ok w
    → (v : V) × (checked ≡ ok v) × (next v ≡ ok w)
>>=-ok (err why) next w passed = cc
>>=-ok (ok v) next w passed = (v, refl, passed)

refuse_if-ok : (b : Bool) (e : AddError) (u : Unit {0}) → refuse_if b e ≡ ok u → b ≡ false
refuse_if-ok true e u h = cc
refuse_if-ok false e u h = refl

or_invalid-ok : (o : Option Text) (msg a : Text) → (or_invalid o msg ≡ ok a) ↔ (o ≡ some a)
unfolding or_invalid
or_invalid-ok none msg a = (λ h. cc, λ h. cc)
or_invalid-ok (some b) msg a = (λ h. cc, λ h. cc)

positive_or-ok :
    (default : ℤ) (o : Option ℤ) (msg : Text) (v : ℤ)
    → (positive_or default o msg ≡ ok v) ↔ Chosen default o v
unfolding positive_or
positive_or-ok default none msg v = (λ h. inl (refl, cc), λ h. ground arith)
positive_or-ok default (some n) msg v = (λ h. ground arith, λ h. ground arith)

known_priority-ok :
    (o : Option Priority) (p : Priority) → (known_priority o ≡ ok p) ↔ ChosenPriority o p
unfolding known_priority
known_priority-ok none p = (λ h. inl (refl, cc), λ h. ground arith)
known_priority-ok (some q) p = (
  λ h. ground (arith, text_eq_iff q priority_normal, text_eq_iff q priority_high),
  λ h. ground (arith, text_eq_iff q priority_normal, text_eq_iff q priority_high),
)

ok-injective : (a b : Draft) → ◌≡◌ {A = Result Draft} (ok a) (ok b) → a ≡ b
ok-injective a b e = cc

Checked-of_ok : (i : Input) (s : Scheduler) (d : Draft) → validate i s ≡ ok d → Checked i s d
unfolding validate
Checked-of_ok i s d h =
    let (u, e₁, k₁) = >>=-ok _ _ _ h in
    let (v, e₂, k₂) = >>=-ok _ _ _ k₁ in
    let (align, e₃, k₃) = >>=-ok _ _ _ k₂ in
    let (tdc, e₄, k₄) = >>=-ok _ _ _ k₃ in
    let (dd, e₅, k₅) = >>=-ok _ _ _ k₄ in
    let (pr, e₆, k₆) = >>=-ok _ _ _ k₅ in
    let made = ok-injective _ d k₆ in
    let short = refuse_if-ok (ltb 256 (length i.text)) _ u e₁ in
    let room = refuse_if-ok (leb 100 (count_active s.heap s.store)) _ v e₂ in
    record {
      short = ground (arith, short);
      room = ground (arith, room);
      aligned =
          subst (λ x. parse_align i.align ≡ some x) (ap (λ (t : Draft). t.align) made)
            ((or_invalid-ok (parse_align i.align) _ align).0 e₃);
      target =
          subst (Chosen s.default_target_count i.target_display_count)
            (ap (λ (t : Draft). t.target_display_count) made)
            ((positive_or-ok s.default_target_count i.target_display_count _ tdc).0 e₄);
      duration =
          subst (Chosen s.default_display_dur i.display_duration)
            (ap (λ (t : Draft). t.display_duration) made)
            ((positive_or-ok s.default_display_dur i.display_duration _ dd).0 e₅);
      prioritised =
          subst (ChosenPriority i.priority) (ap (λ (t : Draft). t.priority) made)
            ((known_priority-ok i.priority pr).0 e₆);
    }

ok_of_Checked : (i : Input) (s : Scheduler) (d : Draft) → Checked i s d → validate i s ≡ ok d
unfolding validate
ok_of_Checked i s d c =
    let short : ltb 256 (length i.text) ≡ false = ground (arith, c.short) in
    let room : leb 100 (count_active s.heap s.store) ≡ false = ground (arith, c.room) in
    rw (
      short,
      room,
      c.aligned,
      (positive_or-ok s.default_target_count i.target_display_count
            (codes "target_display_count must be > 0") d.target_display_count).1
          c.target,
      (positive_or-ok s.default_display_dur i.display_duration
            (codes "display_duration must be > 0") d.display_duration).1
          c.duration,
      (known_priority-ok i.priority d.priority).1 c.prioritised,
    )

-- AddMessage accepts an input exactly if the text has at most 256 characters, fewer than 100 messages
-- are active, the alignment is known, and the numbers and the priority are valid where given; the
-- message then has the parsed alignment, and the defaults where something was left out.
pub validate_iff : (i : Input) (s : Scheduler) (d : Draft) → (validate i s ≡ ok d) ↔ Checked i s d
validate_iff i s d = (Checked-of_ok i s d, ok_of_Checked i s d)
