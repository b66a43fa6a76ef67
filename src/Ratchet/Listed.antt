-- ===== src/Ratchet/Listed.antt =====
-- scripts/standards_known_violations.py: when a checker passes.
use data_migration_tool.Prelude.{
  ℕ, ◌≡◌, refl, sym, ◌∙◌, ◌↔◌, inl, inr, Bool, true, false, not, ◌&&◌, ◌||◌, Option, none, some,
  List, [], ◌∷◌, ◌++◌, arith, if◌then◌else◌, Bool-cases, Option-cases, is_empty, any, all,
}
use data_migration_tool.Prelude.{is_empty-append}
use data_migration_tool.Prelude.Text.{Text}
use data_migration_tool.Scenario.Dict.{Dict, look, has, put, has-look, has-none, has-put}
use data_migration_tool.Ratchet.{
  Entry, Found, Groups, is_text, put_keyed, add_entry, load_onto, load, sort_found, partition,
  report,
}

-- an entry for the key, among those of the checker
unfoldable pub lists : Text → Text → Entry → Bool
lists checker k e = is_text checker e.checker && is_text k e.key

abbrev is_some {ℓ} : {A : Type ℓ} → Option A → Bool
is_some none = false
is_some (some a) = true

-- an entry of the checker has a key
unfoldable pub is_keyed : Text → Entry → Bool
is_keyed checker e = not (is_text checker e.checker) || is_some e.key

abbrev pub entries_of : Option (List Entry) → List Entry
entries_of none = []
entries_of (some es) = es

is_some-put_keyed :
    (o : Option Text) (e : Entry) (out : Dict Entry) → is_some (put_keyed o e out) ≡ is_some o
unfolding put_keyed
is_some-put_keyed none e out = refl
is_some-put_keyed (some k) e out = refl

has-put_keyed :
    (o : Option Text) (e : Entry) (out d : Dict Entry) (k : Text)
    → put_keyed o e out ≡ some d
    → has d k ≡ (has out k || is_text k o)
unfolding put_keyed
has-put_keyed none e out d k h = absurd (cc)
has-put_keyed (some j) e out d k h =
    let q : d ≡ put j e out = cc in rw (q, has-put j k e out) (ground arith)

is_some-add_entry :
    (checker : Text) (e : Entry) (out : Dict Entry)
    → is_some (add_entry checker e out) ≡ is_keyed checker e
unfolding add_entry is_keyed
is_some-add_entry checker e out = elim (Bool-cases (is_text checker e.checker)) [
  | inl h ↦ rw h (is_some-put_keyed e.key e out)
  | inr h ↦ rw h refl
]

has-add_entry :
    (checker : Text) (e : Entry) (out d : Dict Entry) (k : Text)
    → add_entry checker e out ≡ some d
    → has d k ≡ (has out k || lists checker k e)
unfolding add_entry lists
has-add_entry checker e out d k h = elim (Bool-cases (is_text checker e.checker)) [
  | inl g ↦
      let p : put_keyed e.key e out ≡ some d = rw g at h in rw g (has-put_keyed e.key e out d k p)
  | inr g ↦
      let p : some out ≡ some d = rw g at h in let q : d ≡ out = cc in rw (g, q) (ground arith)
]

pub has-load_onto :
    (checker : Text) (es : List Entry) (out d : Dict Entry) (k : Text)
    → load_onto checker es out ≡ some d
    → has d k ≡ (has out k || any (lists checker k) es)
unfolding load_onto
has-load_onto checker [] out d k h = let q : d ≡ out = cc in rw q (ground arith)
has-load_onto checker (e ∷ es) out d k h = elim (Option-cases (add_entry checker e out)) [
  | inl g ↦ absurd (cc)
  | inr (m, g) ↦
      let one = has-add_entry checker e out m k g in
      let p : load_onto checker es m ≡ some d = rw (load_onto, g) at h in
      let rest = has-load_onto checker es m d k p in ground (arith, one, rest)
]

is_some-load_onto :
    (checker : Text) (es : List Entry) (out : Dict Entry)
    → is_some (load_onto checker es out) ≡ all (is_keyed checker) es
unfolding load_onto
is_some-load_onto checker [] out = refl
is_some-load_onto checker (e ∷ es) out =
    let one = is_some-add_entry checker e out in
    elim (Option-cases (add_entry checker e out)) [
      | inl g ↦ let k : false ≡ is_keyed checker e = rw g at one in rw (load_onto, g) (ground arith)
      | inr (m, g) ↦
          let k : true ≡ is_keyed checker e = rw g at one in
          rw (load_onto, g, is_some-load_onto checker es m) (ground arith)
    ]

-- the loop puts what is not in the list into the first group
sort_found-new :
    (d : Dict Entry) (fs : List Found) (g : Groups)
    → is_empty (Groups.new (sort_found d fs g)) ≡ (is_empty g.new && all (λ f. has d f.0) fs)
unfolding sort_found
sort_found-new d [] g = ground arith
sort_found-new d (f ∷ fs) g = elim (Option-cases (look d f.0)) [
  | inl h ↦
      rw
        (
          h,
          sort_found-new d fs (record g { new = g.new ++ f ∷ [] }),
          is_empty-append g.new (f ∷ []),
          has-none f.0 d h,
        )
        (ground arith)
  | inr (e, h) ↦
      rw (h, sort_found-new d fs (record g { known = g.known ++ (f, e) ∷ [] }), has-look f.0 e d h)
        refl
]

all-has :
    (checker : Text) (es : List Entry) (d : Dict Entry) (fs : List Found)
    → load_onto checker es [] ≡ some d
    → all (λ f. has d f.0) fs ≡ all (λ f. any (lists checker f.0) es) fs
unfolding has
all-has checker es d [] h = refl
all-has checker es d (f ∷ fs) h =
    let one : has d f.0 ≡ any (lists checker f.0) es = has-load_onto checker es [] d f.0 h in
    let rest = all-has checker es d fs h in ground (arith, one, rest)

code_zero : (b : Bool) → ◌≡◌ {A = Option ℕ} (some (if b then 0 else 1)) (some 0) ↔ (b ≡ true)
code_zero true = (λ h. refl, λ h. refl)
code_zero false = (λ h. absurd (cc), λ h. absurd (cc))

pub load-entries :
    (checker : Text) (file : Option (List Entry))
    → load checker file ≡ load_onto checker (entries_of file) []
unfolding load load_onto
load-entries checker none = refl
load-entries checker (some es) = refl

-- The exit code is 0 exactly if every entry of the checker has a key and each found violation has an
-- entry of the checker; without a file, if nothing is found.
pub report-Listed :
    (checker : Text) (file : Option (List Entry)) (found : List Found)
    → report checker file found ≡ some 0
      ↔ (all (is_keyed checker) (entries_of file) ≡ true)
        × (all (λ f. any (lists checker f.0) (entries_of file)) found ≡ true)
unfolding report partition
report-Listed checker file found =
    let keyed = is_some-load_onto checker (entries_of file) [] in
    elim (Option-cases (load_onto checker (entries_of file) [])) [
      | inl h ↦
          let k : false ≡ all (is_keyed checker) (entries_of file) = rw h at keyed in
          rw (report, partition, load-entries checker file, h)
            (λ q. absurd (cc), λ q. absurd (cc q.0))
      | inr (d, h) ↦
          let k : true ≡ all (is_keyed checker) (entries_of file) = rw h at keyed in
          rw (report, partition, load-entries checker file, h, sort_found-new)
            (
              λ q. (
                sym k,
                sym (all-has checker (entries_of file) d found h)
                    ∙ (code_zero (all (λ f. has d f.0) found)).0 q,
              ),
              λ q.
                  (code_zero (all (λ f. has d f.0) found)).1
                    (all-has checker (entries_of file) d found h ∙ q.1),
            )
    ]
