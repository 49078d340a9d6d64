-- ===== src/Api/Deleting.antt =====
-- DELETE /api/messages/:id: every answer, and what it did.
use split_flap_display_web.Prelude.{
  ℕ, zero, suc, ◌≤◌, ◌≡◌, ◌⊎◌, ◌↔◌, refl, ap, ◌∙◌, inl, inr, Bool, true, false, ◌&&◌, ◌==◌, none,
  some, List, [], ◌∷◌, ◌++◌, All, Text, codes, length, lookup, arith, Bool-cases,
}
use split_flap_display_web.Models.{Zone}
use split_flap_display_web.Scheduler.{Scheduler}
use split_flap_display_web.Scheduler.Requests.{remove_message}
use split_flap_display_web.Scheduler.Requests.Removing.{Removed, remove_message-Removed}
use split_flap_display_web.Scheduler.Invariant.{IsValid}
use split_flap_display_web.Api.{
  answers, fails, says, is_hex, hex_groups, is_uuid, delete_response, handle_delete_message,
}

delete_response-true : (p : Bool × Scheduler) → p.0 ≡ true → delete_response p ≡ (answers tt, p.1)
unfolding delete_response
delete_response-true (true, s) e = refl
delete_response-true (false, s) e = cc

-- A digit, or a letter from a to f or from A to F.
abbrev pub IsHexDigit : ℕ → Type 0
IsHexDigit c = ((48 ≤ c) × (c ≤ 57)) ⊎ ((97 ≤ c) × (c ≤ 102)) ⊎ ((65 ≤ c) × (c ≤ 70))

-- Groups of so many hexadecimal digits, joined by hyphens (45).
unfoldable pub IsHexGroups : List ℕ → Text → Type 0
IsHexGroups [] s = s ≡ []
IsHexGroups (n ∷ []) s = (length s ≡ n) × All IsHexDigit s
IsHexGroups (n ∷ m ∷ ns) s =
    (group : Text) × (rest : Text) × (s ≡ group ++ 45 ∷ rest)
    × (length group ≡ n)
    × All IsHexDigit group
    × IsHexGroups (m ∷ ns) rest

abbrev pub IsUuid : Text → Type 0
IsUuid id = IsHexGroups (8 ∷ 4 ∷ 4 ∷ 4 ∷ 12 ∷ []) id

is_hex-IsHexDigit : (c : ℕ) → is_hex c ≡ true → IsHexDigit c
unfolding is_hex
is_hex-IsHexDigit c e = ground arith

IsHexDigit-is_hex : (c : ℕ) → IsHexDigit c → is_hex c ≡ true
unfolding is_hex
IsHexDigit-is_hex c e = ground arith

both_true : (b c : Bool) → b && c ≡ true → (b ≡ true) × (c ≡ true)
both_true true true e = (refl, refl)
both_true true false e = cc
both_true false c e = cc

is_hyphen : (c : ℕ) → c == 45 ≡ true → c ≡ 45
is_hyphen c e = ground arith

-- One more digit in the first group.
digit_first :
    (n : ℕ) (ns : List ℕ) (c : ℕ) (s : Text)
    → IsHexDigit c
    → IsHexGroups (n ∷ ns) s
    → IsHexGroups (suc n ∷ ns) (c ∷ s)
unfolding IsHexGroups
digit_first n [] c s d (e, h) = (omega (arith, e), (d, h))
digit_first n (m ∷ ns) c s d (group, rest, e, l, h, more) =
    (c ∷ group, rest, ap (λ (t : Text). c ∷ t) e, omega (arith, l), (d, h), more)

IsHexGroups-of_test : (ns : List ℕ) (s : Text) → hex_groups ns s ≡ true → IsHexGroups ns s
unfolding hex_groups IsHexGroups
IsHexGroups-of_test [] [] e = refl
IsHexGroups-of_test [] (c ∷ s) e = cc
IsHexGroups-of_test (zero ∷ []) [] e = (refl, tt)
IsHexGroups-of_test (zero ∷ []) (c ∷ s) e = cc
IsHexGroups-of_test (zero ∷ n ∷ ns) [] e = cc
IsHexGroups-of_test (zero ∷ n ∷ ns) (c ∷ s) e =
    let (hyphen, more) = both_true (c == 45) (hex_groups (n ∷ ns) s) e in
    (
      [],
      s,
      ap (λ (d : ℕ). d ∷ s) (is_hyphen c hyphen),
      refl,
      tt,
      IsHexGroups-of_test (n ∷ ns) s more,
    )
IsHexGroups-of_test (suc n ∷ ns) [] e = cc
IsHexGroups-of_test (suc n ∷ ns) (c ∷ s) e =
    let (digit, more) = both_true (is_hex c) (hex_groups (n ∷ ns) s) e in
    digit_first n ns c s (is_hex-IsHexDigit c digit) (IsHexGroups-of_test (n ∷ ns) s more)

last_group : (s : Text) (n : ℕ) → length s ≡ n → All IsHexDigit s → hex_groups (n ∷ []) s ≡ true
unfolding hex_groups
last_group [] zero e h = refl
last_group [] (suc n) e h = absurd (omega (arith, e))
last_group (c ∷ s) zero e h = absurd (omega (arith, e))
last_group (c ∷ s) (suc n) e h =
    rw (IsHexDigit-is_hex c h.0) (last_group s n (omega (arith, e)) h.1)

first_group :
    (group rest : Text) (n m : ℕ) (ns : List ℕ)
    → length group ≡ n
    → All IsHexDigit group
    → hex_groups (m ∷ ns) rest ≡ true
    → hex_groups (n ∷ m ∷ ns) (group ++ 45 ∷ rest) ≡ true
unfolding hex_groups
first_group [] rest zero m ns e h k = k
first_group [] rest (suc n) m ns e h k = absurd (omega (arith, e))
first_group (c ∷ group) rest zero m ns e h k = absurd (omega (arith, e))
first_group (c ∷ group) rest (suc n) m ns e h k =
    rw (IsHexDigit-is_hex c h.0) (first_group group rest n m ns (omega (arith, e)) h.1 k)

IsHexGroups-test : (ns : List ℕ) (s : Text) → IsHexGroups ns s → hex_groups ns s ≡ true
unfolding hex_groups IsHexGroups
IsHexGroups-test [] s e = rw e refl
IsHexGroups-test (n ∷ []) s (e, h) = last_group s n e h
IsHexGroups-test (n ∷ m ∷ ns) s (group, rest, e, l, h, more) =
    ap (hex_groups (n ∷ m ∷ ns)) e
    ∙ first_group group rest n m ns l h (IsHexGroups-test (m ∷ ns) rest more)

pub is_uuid-IsUuid : (id : Text) → (is_uuid id ≡ true) ↔ IsUuid id
unfolding is_uuid
is_uuid-IsUuid id = (IsHexGroups-of_test _ id, IsHexGroups-test _ id)

not_uuid : (id : Text) → ¬ IsUuid id → is_uuid id ≡ false
not_uuid id n = elim (Bool-cases (is_uuid id)) [
  | inl e ↦ absurd (n ((is_uuid-IsUuid id).0 e))
  | inr e ↦ e
]

-- A deletion is refused with 400 if the identifier is not made of five groups of 8, 4, 4, 4 and 12
-- hexadecimal digits with hyphens in between, and with 404 if it is and no message has it, and nothing
-- changes then. Otherwise it is answered with success, and the message is completed and announced, with
-- all others left alone.
pub handle_delete_message_cases :
    (z : Zone) (id : Text) (s : Scheduler)
    → IsValid s
    → (¬ IsUuid id → handle_delete_message z id s ≡ (fails 400 (says (codes "invalid uuid")), s))
      × (IsUuid id
          → lookup id s.store.by_id ≡ none
          → handle_delete_message z id s ≡ (fails 404 (says (codes "message not found")), s))
      × ((r : ℕ)
          → IsUuid id
          → lookup id s.store.by_id ≡ some r
          → ((handle_delete_message z id s).0 ≡ answers tt)
            × Removed z r s (handle_delete_message z id s).1)
unfolding handle_delete_message
handle_delete_message_cases z id s v =
    let (missing, found) = remove_message-Removed z id s v in
    let (_, test) = is_uuid-IsUuid id in
    (
      λ malformed. rw (not_uuid id malformed) refl,
      λ formed absent. rw (test formed, missing absent, delete_response) refl,
      λ r formed present.
          let (told, removed) = found r present in
          let answer = delete_response-true (remove_message z id s) told in
          rw (test formed, answer) (refl, removed),
    )
