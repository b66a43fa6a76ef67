-- ===== src/Gate/Override/Narrow.antt =====
-- How narrow the owner override is, and what each attempt leaves in the log.
use data_migration_tool.Prelude.{
  ◌≤◌, String, ◌≡◌, refl, sym, ◌∙◌, ◌≢◌, ◌↔◌, inl, inr, true, false, some, List, [], ◌∷◌, ◌++◌,
  arith, if◌then◌else◌, Option-cases, length, is_empty, All, is_empty-keep-not,
}
use data_migration_tool.Prelude.Text.{
  Text, codes, has_prefix, has_prefix_sound, has_prefix-append, lower, strip,
}
use data_migration_tool.Gate.Paths.{Identity}
use data_migration_tool.Gate.Log.{owner_override, Why, Store}
use data_migration_tool.Gate.Override.{
  Terminal, is_waivable, Failure, bypassed, blocking, messages, is_terminal, confirmation, confirms,
  decide_override, authorize_owner_override,
}

-- What the owner alone can bring about.
pub record Authorized (reason : Text) (i : Identity) (failures : List Failure) (t : Terminal)
    : Type 0 where
  pub at_terminal : t.is_tty ≡ some true
  pub reason_given : strip reason ≢ []
  pub failing : failures ≢ []
  pub waivable : All (λ f. is_waivable f.0 ≡ true) failures
  pub answer : Text
  pub typed : t.typed ≡ some answer
  pub long : 7 ≤ length (lower (strip answer))
  pub rest : Text
  pub sha : lower (codes i.commit) ≡ lower (strip answer) ++ rest

terminal_iff : (t : Terminal) → (is_terminal t ≡ true) ↔ (t.is_tty ≡ some true)
unfolding is_terminal
terminal_iff t = (λ h. ground arith, λ h. ground arith)

empty_iff {ℓ} : {A : Type ℓ} (xs : List A) → (is_empty xs ≡ false) ↔ (xs ≢ [])
empty_iff [] = (λ h. cc, λ h. absurd (h refl))
empty_iff (x ∷ xs) = (λ h e. cc, λ h. refl)

blocking_iff :
    (fs : List Failure) → (is_empty (blocking fs) ≡ true) ↔ All (λ f. is_waivable f.0 ≡ true) fs
unfolding blocking
blocking_iff fs = is_empty-keep-not (λ f. is_waivable f.0) fs

bypassed-All :
    (fs : List Failure)
    → All (λ f. is_waivable f.0 ≡ true) fs
    → is_empty (bypassed fs) ≡ is_empty fs
unfolding bypassed
bypassed-All [] h = refl
bypassed-All (f ∷ fs) h = rw h.0

confirms_gives :
    (i : Identity) (t : Terminal)
    → confirms i (confirmation t) ≡ true
    → (answer : Text) × (t.typed ≡ some answer)
      × (7 ≤ length (lower (strip answer)))
      × (has_prefix (lower (strip answer)) (lower (codes i.commit)) ≡ true)
unfolding confirms confirmation
confirms_gives i t h = elim (Option-cases t.typed) [
  | inl a ↦ absurd (ground arith)
  | inr (s, a) ↦ (s, a, ground arith, ground arith)
]

confirms_of :
    (i : Identity) (t : Terminal) (answer : Text)
    → t.typed ≡ some answer
    → 7 ≤ length (lower (strip answer))
    → has_prefix (lower (strip answer)) (lower (codes i.commit)) ≡ true
    → confirms i (confirmation t) ≡ true
unfolding confirms confirmation
confirms_of i t s a l p = rw a (ground arith)

decided :
    (reason : Text) (i : Identity) (fs : List Failure) (t : Terminal)
    → ((decide_override reason i fs t).0 ≡ true) ↔ (
        (is_terminal t ≡ true)
        × (is_empty (strip reason) ≡ false)
        × (is_empty (blocking fs) ≡ true)
        × (is_empty (bypassed fs) ≡ false)
        × (confirms i (confirmation t) ≡ true))
unfolding decide_override
decided reason i fs t = (λ h. ground arith, λ h. ground arith)

pub decide-Authorized :
    (reason : Text) (i : Identity) (fs : List Failure) (t : Terminal)
    → (decide_override reason i fs t).0 ≡ true
    → Authorized reason i fs t
decide-Authorized reason i fs t h =
    let (a, b, c, d, e) = (decided reason i fs t).0 h in
    let all_waivable = (blocking_iff fs).0 c in
    let (s, typed, long, p) = confirms_gives i t e in
    let (rest, sha) = has_prefix_sound (lower (strip s)) (lower (codes i.commit)) p in
    record {
      at_terminal = (terminal_iff t).0 a;
      reason_given = (empty_iff (strip reason)).0 b;
      failing = (empty_iff fs).0 (sym (bypassed-All fs all_waivable) ∙ d);
      waivable = all_waivable;
      answer = s;
      typed = typed;
      long = long;
      rest = rest;
      sha = sha;
    }

Authorized-decide :
    (reason : Text) (i : Identity) (fs : List Failure) (t : Terminal)
    → Authorized reason i fs t
    → (decide_override reason i fs t).0 ≡ true
Authorized-decide reason i fs t z = (decided reason i fs t).1 (
  (terminal_iff t).1 z.at_terminal,
  (empty_iff (strip reason)).1 z.reason_given,
  (blocking_iff fs).1 z.waivable,
  bypassed-All fs z.waivable ∙ (empty_iff fs).1 z.failing,
  confirms_of i t z.answer z.typed z.long
      (rw z.sha (has_prefix-append (lower (strip z.answer)) z.rest)),
)

-- The override is accepted exactly at an interactive terminal, with a reason that is not blank, for
-- failures that are all of the regression or the click-through, of which there is one at least,
-- once at least seven characters are typed that begin the SHA of the commit, in any case.
pub authorize-Authorized :
    (reason : Text) (i : Identity) (failures : List Failure) (t : Terminal) (who : String)
    (s : Store)
    → ((authorize_owner_override reason i failures t who s).0 ≡ true)
      ↔ Authorized reason i failures t
unfolding authorize_owner_override
authorize-Authorized reason i fs t who s =
    (decide-Authorized reason i fs t, Authorized-decide reason i fs t)

-- Every attempt appends exactly one line to the log, with its outcome, and touches no evidence.
pub authorize_logs :
    (reason : Text) (i : Identity) (failures : List Failure) (t : Terminal) (who : String)
    (s : Store)
    → (why : Why) × ((authorize_owner_override reason i failures t who s).1.file ≡ s.file)
      × ((authorize_owner_override reason i failures t who s).1.log
          ≡ s.log
            ++ owner_override
                (authorize_owner_override reason i failures t who s).0
                why
                (strip reason)
                i
                who
                (if (authorize_owner_override reason i failures t who s).0
                  then messages (bypassed failures)
                  else [])
                (messages failures)
              ∷ [])
unfolding authorize_owner_override
authorize_logs reason i fs t who s = ((decide_override reason i fs t).1, refl, refl)
