-- ===== src/StatusMap/Searches.antt =====
-- src/RSL/src/legislator.cpp: what the searches through a `StatusMap` find.
use rsl.Common.{
  ℕ, ◌+◌, ◌-◌, ◌%◌, ◌^◌, ◌<◌, ◌≤◌, ◌≡◌, ◌≢◌, ◌↔◌, ◌⊎◌, true, ltb, leb→le, le→leb, refl, sym, ap,
  ◌∙◌, subst, arith,
}
use rsl.Common.{Bool, ◌&&◌}
use rsl.Common.{List, [], ◌∷◌, All, Option, none, some, if◌then◌else◌, leb, Bool-cases, inl, inr}
use rsl.Ballot.{MemberId, BallotNumber, id_eq, gt, ge, lt}
use rsl.Ballot.Order.{id_eq-eq, gt-lt, ge-lt, lt_total, lt_irrefl}
use rsl.Ballot.Le.{Le, ge-Le, gt-Le}
use rsl.Message.{is_higher_decree}
use rsl.Message.Bodies.{StatusResponse}
use rsl.StatusMap.{
  find_higher_logged, find_checkpoint, find_min_received_ago, lower_ago, signed_ltb,
}
use rsl.StatusMap.Refines.{lookup, IsUnique}

-- A response that a test lets through.
abbrev if_passes : (StatusResponse → Bool) → Option StatusResponse → Option StatusResponse
if_passes p none = none
if_passes p (some s) = if p s then some s else none

abbrev keep : (StatusResponse → Bool) → List StatusResponse → List StatusResponse
keep p [] = []
keep p (s ∷ q) = let rest = keep p q in if p s then s ∷ rest else rest

keep-lookup :
    (p : StatusResponse → Bool) (id : MemberId) (q : List StatusResponse)
    → IsUnique q
    → lookup id (keep p q) ≡ if_passes p (lookup id q)
unfolding lookup
keep-lookup p id [] u = refl
keep-lookup p id (s ∷ q) u = elim (Bool-cases (id_eq s.member_id id)) [
  | inl same ↦
      let absent : lookup id q ≡ none =
        subst (λ x. lookup x q ≡ none) (id_eq-eq s.member_id id same) u.0 in
      let gone : lookup id (keep p q) ≡ none = keep-lookup p id q u.1 ∙ ap (if_passes p) absent in
      elim (Bool-cases (p s)) [
        | inl passes ↦ rw (same, passes, same) refl
        | inr fails ↦ rw (same, fails, gone) refl
      ]
  | inr other ↦ elim (Bool-cases (p s)) [
    | inl passes ↦ rw (passes, other) (keep-lookup p id q u.1)
    | inr fails ↦ rw (fails, other) (keep-lookup p id q u.1)
  ]
]

find_higher_logged-keep :
    (d e : ℕ) (b : BallotNumber) (q : List StatusResponse)
    → find_higher_logged d e b q
      ≡ keep (λ s. leb s.min_decree_in_log d && is_higher_decree s.decree s.ballot e b) q
unfolding find_higher_logged
find_higher_logged-keep d e b [] = refl
find_higher_logged-keep d e b (s ∷ q) = rw (find_higher_logged-keep d e b q) refl

find_checkpoint-keep :
    (d : ℕ) (q : List StatusResponse)
    → find_checkpoint d q ≡ keep (λ s. leb d s.checkpointed_decree) q
unfolding find_checkpoint
find_checkpoint-keep d [] = refl
find_checkpoint-keep d (s ∷ q) = rw (find_checkpoint-keep d q) refl

none_ne {ℓ} : {A : Type ℓ} {a : A} → none ≡ some a → ⊥
none_ne h = cc

some_injective {ℓ} : {A : Type ℓ} {a b : A} → some a ≡ some b → a ≡ b
some_injective h = cc

if_passes-some :
    (p : StatusResponse → Bool) (o : Option StatusResponse) (r : StatusResponse)
    → (if_passes p o ≡ some r) ↔ ((o ≡ some r) × (p r ≡ true))
if_passes-some p none r = ((λ h. absurd (none_ne h)), (λ h. absurd (none_ne h.0)))
if_passes-some p (some s) r = elim (Bool-cases (p s)) [
  | inl passes ↦ rw passes (
    (λ h. let same : s ≡ r = some_injective h in (h, subst (λ t. p t ≡ true) same passes)),
    (λ h. h.0),
  )
  | inr fails ↦ rw fails (
    (λ h. absurd (none_ne h)),
    (λ h.
        let same : s ≡ r = some_injective h.0 in
        let passes : p s ≡ true = subst (λ t. p t ≡ true) (sym same) h.1 in ground (arith, fails)),
  )
]

-- A place above decree `e` with ballot `b`: no lower ballot, and a higher decree, or the same one
-- with another ballot.
abbrev pub IsAbove : StatusResponse → ℕ → BallotNumber → Type 0
IsAbove s e b = Le b s.ballot × ((e < s.decree) ⊎ ((s.decree ≡ e) × (b ≢ s.ballot)))

gt_of : (a b : BallotNumber) → Le b a → b ≢ a → gt a b ≡ true
gt_of a b le apart =
    gt-lt a b
    ∙ elim (Bool-cases (lt b a)) [ inl h ↦ h | inr h ↦ absurd (apart (lt_total b a h le)) ]

gt_apart : (a b : BallotNumber) → gt a b ≡ true → b ≢ a
gt_apart a b h same =
    let self : lt b b ≡ true = subst (λ t. lt b t ≡ true) (sym same) (sym (gt-lt a b) ∙ h) in
    ground (arith, lt_irrefl b)

is_higher_decree-IsAbove :
    (e : ℕ) (b : BallotNumber) (s : StatusResponse)
    → (is_higher_decree s.decree s.ballot e b ≡ true) ↔ IsAbove s e b
unfolding is_higher_decree
is_higher_decree-IsAbove e b s = (
  (λ h. elim (Bool-cases (ltb e s.decree && ge s.ballot b)) [
    | inl up ↦
        let ge_b : ge s.ballot b ≡ true = ground arith in
        (ge-Le s.ballot b ge_b, inl (ground arith))
    | inr level ↦
        let gt_b : gt s.ballot b ≡ true = ground arith in
        (gt-Le s.ballot b gt_b, inr (ground arith, gt_apart s.ballot b gt_b))
  ]),
  (λ h. elim h.1 [
    | inl up ↦ ground (arith, ge-lt s.ballot b, h.0)
    | inr level ↦ ground (arith, gt_of s.ballot b h.0 level.1, level.0)
  ]),
)

-- Where every member answered at most once: an answer of a member is left by `FindHigherLogged`
-- exactly if it is the member's answer in the map, its log starts at or before `d`, and its vote has
-- a ballot not below `b` and stands at a decree above `e`, or at `e` with another ballot than `b`.
-- `FindCheckpoint` leaves it exactly if it is in the map and has a checkpoint at or after `c`.
pub searches-lookup :
    (c d e : ℕ) (b : BallotNumber) (id : MemberId) (r : StatusResponse) (q : List StatusResponse)
    → IsUnique q
    → ((lookup id (find_higher_logged d e b q) ≡ some r)
        ↔ ((lookup id q ≡ some r) × (r.min_decree_in_log ≤ d) × IsAbove r e b))
      × ((lookup id (find_checkpoint c q) ≡ some r)
          ↔ ((lookup id q ≡ some r) × (c ≤ r.checkpointed_decree)))
searches-lookup c d e b id r q u =
    let p : StatusResponse → Bool =
      λ s. leb s.min_decree_in_log d && is_higher_decree s.decree s.ballot e b in
    let t : StatusResponse → Bool = λ s. leb c s.checkpointed_decree in
    let logged = ap (lookup id) (find_higher_logged-keep d e b q) ∙ keep-lookup p id q u in
    let saved = ap (lookup id) (find_checkpoint-keep c q) ∙ keep-lookup t id q u in
    let (passes, passed) = if_passes-some p (lookup id q) r in
    let (held, holds) = if_passes-some t (lookup id q) r in
    let (up, down) = is_higher_decree-IsAbove e b r in
    (
      (
        (λ h.
            let (there, test) = passes (sym logged ∙ h) in
            let above : is_higher_decree r.decree r.ballot e b ≡ true = ground arith in
            (there, ground arith, up above)),
        (λ h.
            let low : leb r.min_decree_in_log d ≡ true = le→leb r.min_decree_in_log d h.1 in
            logged ∙ passed (h.0, ground (arith, low, down h.2))),
      ),
      (
        (λ h.
            let (there, test) = held (sym saved ∙ h) in
            (there, leb→le c r.checkpointed_decree test)),
        (λ h. saved ∙ holds (h.0, le→leb c r.checkpointed_decree h.1)),
      ),
    )

-- An answer of the map.
abbrev pub Listed : StatusResponse → List StatusResponse → Type 0
Listed r [] = ⊥
Listed r (s ∷ q) = (r ≡ s) ⊎ Listed r q

-- The Int64 order of bit patterns.
abbrev At : ℕ → ℕ
At a = (a + 2 ^ 63) % 2 ^ 64

first : ℕ → StatusResponse → ℕ
first m s = if signed_ltb s.last_received_ago m then s.last_received_ago else m

first-le :
    (m : ℕ) (s : StatusResponse)
    → (At (first m s) ≤ At m) × (At (first m s) ≤ At s.last_received_ago)
unfolding first
first-le m s = ground arith

lower_ago-le : (m : ℕ) (q : List StatusResponse) → At (lower_ago m q) ≤ At m
unfolding lower_ago first
lower_ago-le m [] = omega arith
lower_ago-le m (s ∷ q) = omega (arith, lower_ago-le (first m s) q, first-le m s)

lower_ago-All :
    (x m : ℕ) (q : List StatusResponse)
    → x ≡ lower_ago m q
    → All (λ s. At x ≤ At s.last_received_ago) q
unfolding lower_ago first
lower_ago-All x m [] h = tt
lower_ago-All x m (s ∷ q) h =
    (omega (arith, h, lower_ago-le (first m s) q, first-le m s), lower_ago-All x (first m s) q h)

min_ago-le :
    (x y : ℕ) → x < 2 ^ 64 → y < 2 ^ 63 → At x ≤ At y → (if signed_ltb x 0 then 0 else x) ≤ y
min_ago-le x y h k l = ground arith

lower_ago-bound :
    (m : ℕ) (q : List StatusResponse)
    → m < 2 ^ 64
    → All (λ s. s.last_received_ago < 2 ^ 64) q
    → lower_ago m q < 2 ^ 64
unfolding lower_ago first
lower_ago-bound m [] h b = h
lower_ago-bound m (s ∷ q) h b = lower_ago-bound (first m s) q (ground arith) b.1

ago-All :
    (x : ℕ) (q : List StatusResponse)
    → x < 2 ^ 64
    → All (λ s. At x ≤ At s.last_received_ago) q
    → All
        (λ s.
          s.last_received_ago < 2 ^ 63 → (if signed_ltb x 0 then 0 else x) ≤ s.last_received_ago)
        q
ago-All x [] h a = tt
ago-All x (s ∷ q) h a = ((λ small. min_ago-le x s.last_received_ago h small a.0), ago-All x q h a.1)

-- The smallest value is the one to start with, or some answer's.
lower_ago-attained :
    (m : ℕ) (q : List StatusResponse)
    → (lower_ago m q ≡ m)
      ⊎ ((s : StatusResponse) × Listed s q × (lower_ago m q ≡ s.last_received_ago))
unfolding lower_ago first
lower_ago-attained m [] = inl refl
lower_ago-attained m (s ∷ q) = elim (lower_ago-attained (first m s) q) [
  | inl e ↦ elim (Bool-cases (signed_ltb s.last_received_ago m)) [
    | inl less ↦
        let it : first m s ≡ s.last_received_ago = rw less refl in inr (s, inl refl, e ∙ it)
    | inr more ↦ let it : first m s ≡ m = rw more refl in inl (e ∙ it)
  ]
  | inr r ↦ inr (r.0, inr r.1, r.2)
]

signed_ltb-negative : (x : ℕ) → x < 2 ^ 64 → signed_ltb x 0 ≡ true → 2 ^ 63 ≤ x
signed_ltb-negative x h n = ground arith

-- `FindMinReceivedAgo` of Int64 times is at most every time in the map that is not negative, and is
-- itself neither negative nor above the largest Int64. It is a bound that is met: the result is the
-- time of some answer in the map, or it is 0 and some answer has a negative time, or it is the
-- largest Int64, where the map has no lower time.
pub find_min_received_ago-le :
    (q : List StatusResponse)
    → All (λ s. s.last_received_ago < 2 ^ 64) q
    → (find_min_received_ago q < 2 ^ 63)
      × All (λ s. s.last_received_ago < 2 ^ 63 → find_min_received_ago q ≤ s.last_received_ago) q
      × ((find_min_received_ago q ≡ 2 ^ 63 - 1)
          ⊎ ((s : StatusResponse) × Listed s q
              × ((find_min_received_ago q ≡ s.last_received_ago)
                  ⊎ ((find_min_received_ago q ≡ 0) × (2 ^ 63 ≤ s.last_received_ago)))))
unfolding find_min_received_ago
find_min_received_ago-le q b =
    let x = lower_ago (2 ^ 63 - 1) q in
    let small : x < 2 ^ 64 = lower_ago-bound (2 ^ 63 - 1) q (omega arith) b in
    let le = lower_ago-le (2 ^ 63 - 1) q in
    (
      ground (arith, small, le),
      ago-All x q small (lower_ago-All x (2 ^ 63 - 1) q refl),
      elim (lower_ago-attained (2 ^ 63 - 1) q) [
        | inl e ↦ inl (ground (arith, e))
        | inr r ↦ elim (Bool-cases (signed_ltb (lower_ago (2 ^ 63 - 1) q) 0)) [
          | inl below ↦
              let negative : 2 ^ 63 ≤ r.0.last_received_ago =
                subst (λ t. 2 ^ 63 ≤ t) r.2 (signed_ltb-negative x small below) in
              inr (r.0, r.1, inr (rw below refl, negative))
          | inr above ↦ inr (r.0, r.1, inl (rw above r.2))
        ]
      ],
    )
