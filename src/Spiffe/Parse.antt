-- ===== src/Spiffe/Parse.antt =====
-- `parseSpiffeId` against the printing of SPIFFE IDs.
use tornjak.Prelude.{
  ℕ, suc, ==_iff, ◌↔◌, ◌≡◌, refl, Bool, true, false, not, ◌&&◌, Option, none, some, [], ◌∷◌, ◌++◌,
  arith, ◌==◌, if◌then◌else◌, length, take, drop, ◌≢◌, ◌<◌, ltb, ◌-◌, Bool-cases, Option-cases, inl,
  inr, take-append-drop, take-append_length, drop-append_length, length-append, ap, ◌∙◌,
}
use tornjak.Js.{
  Text, Lacks, starts_with, index_of, starts_with_split, index_of_sound, index_of-append,
}
use tornjak.Spiffe.Ids.{prefix, first_is, last_is, check_spiffeid_validity, spiffeid_text}

-- The second half of `parseSpiffeId`: `sp` is the index of the first slash in `sub`.
abbrev cut_at : Text → Option ℕ → Bool × Text × Text
cut_at sub none = (false, [], [])
cut_at sub (some sp) =
    if ltb 0 sp && not (sp == length sub - 1)
    then (true, take sp sub, drop sp sub)
    else (false, [], [])

unfoldable pub parse_spiffe_id : Text → Bool × Text × Text
unfolding starts_with index_of
parse_spiffe_id sid =
    let sub = drop (length prefix) sid in
    if starts_with sid prefix then cut_at sub (index_of sub b'/') else (false, [], [])

-- A trust domain and a path as the parser accepts them.
pub record IsPlain (trust_domain path : Text) : Type 0 where
  pub nonempty : trust_domain ≢ []
  pub no_slash : Lacks b'/' trust_domain
  pub rooted : first_is b'/' path ≡ true
  pub proper : 1 < length path

cut_at-some :
    (sub td p : Text) (n : ℕ)
    → Lacks b'/' (take n sub)
    → drop n sub ≡ b'/' ∷ drop (suc n) sub
    → length (take n sub) ≡ n
    → cut_at sub (some n) ≡ (true, td, p)
    → (sub ≡ td ++ p) × IsPlain td p
cut_at-some sub td p n lacks slash len h =
    ground (arith, take-append-drop n sub, length-append (take n sub) (drop n sub))

cut_at_sound :
    (sub td p : Text)
    → cut_at sub (index_of sub b'/') ≡ (true, td, p)
    → (sub ≡ td ++ p) × IsPlain td p
cut_at_sound sub td p h = elim (Option-cases (index_of sub b'/')) [
  | inl e ↦ absurd (ground arith)
  | inr (n, e) ↦
      let (lacks, slash, _, len) = index_of_sound sub b'/' n e in
      cut_at-some sub td p n lacks slash len (rw e at h)
]

-- The parser accepts a text only as the print of a plain trust domain and path, which it returns.
pub parse_spiffe_id_sound :
    (sid td p : Text)
    → parse_spiffe_id sid ≡ (true, td, p)
    → (sid ≡ prefix ++ (td ++ p)) × IsPlain td p
unfolding parse_spiffe_id
parse_spiffe_id_sound sid td p h = elim (Bool-cases (starts_with sid prefix)) [
  | inl e ↦
      let (same, plain) = cut_at_sound (drop (length prefix) sid) td p (ground arith) in
      (starts_with_split sid prefix e ∙ ap (λ t. prefix ++ t) same, plain)
  | inr e ↦ absurd (ground arith)
]

cut_at_complete :
    (td p : Text) → IsPlain td p → cut_at (td ++ p) (index_of (td ++ p) b'/') ≡ (true, td, p)
cut_at_complete td [] h = absurd (omega arith)
cut_at_complete [] (c ∷ p) h = absurd (h.nonempty refl)
cut_at_complete (d ∷ td) (c ∷ p) h =
    let e : c ≡ b'/' = (==_iff c b'/').0 h.rooted in
    rw (e, index_of-append (d ∷ td) p b'/' h.no_slash)
      (ground (
        arith,
        take-append_length (d ∷ td) (b'/' ∷ p),
        drop-append_length (d ∷ td) (b'/' ∷ p),
        length-append (d ∷ td) (b'/' ∷ p),
        h.proper,
      ))

-- The parser accepts the print of every plain trust domain and path, and returns the two.
pub parse_spiffe_id_complete :
    (td p : Text) → IsPlain td p → parse_spiffe_id (prefix ++ (td ++ p)) ≡ (true, td, p)
unfolding parse_spiffe_id
parse_spiffe_id_complete td p h = cut_at_complete td p h

-- What a refused text looks like in the result.
pub parse_spiffe_id-false :
    (sid td p : Text) → parse_spiffe_id sid ≡ (false, td, p) → (td ≡ []) × (p ≡ [])
unfolding parse_spiffe_id
parse_spiffe_id-false sid td p h = ground arith

-- The parser accepts exactly the prints of a trust domain that is not empty and has no slash before
-- a path that begins with a slash and has more than that, and returns the two.
pub parse_spiffe_id_iff :
    (sid td p : Text)
    → (parse_spiffe_id sid ≡ (true, td, p)) ↔ ((sid ≡ prefix ++ (td ++ p)) × IsPlain td p)
parse_spiffe_id_iff sid td p =
    (parse_spiffe_id_sound sid td p, λ (e, plain). rw e (parse_spiffe_id_complete td p plain))

first_is-Lacks : (c : ℕ) (s : Text) → Lacks c s → first_is c s ≡ false
first_is-Lacks c [] h = refl
first_is-Lacks c (x ∷ s) h = ground arith

last_is-Lacks : (c : ℕ) (s : Text) → Lacks c s → last_is c s ≡ false
last_is-Lacks c [] h = refl
last_is-Lacks c (x ∷ []) h = ground arith
last_is-Lacks c (x ∷ y ∷ s) h = last_is-Lacks c (y ∷ s) h.1

-- A plain pair is valid, so that it is printed as it stands.
pub check_spiffeid_validity-IsPlain :
    (td p : Text) → IsPlain td p → check_spiffeid_validity (some td) (some p) ≡ true
unfolding check_spiffeid_validity
check_spiffeid_validity-IsPlain [] p h = absurd (h.nonempty refl)
check_spiffeid_validity-IsPlain (d ∷ td) p h = ground (
  arith,
  h.proper,
  h.rooted,
  first_is-Lacks b'/' (d ∷ td) h.no_slash,
  last_is-Lacks b'/' (d ∷ td) h.no_slash,
)

-- Printing what the parser returns gives back the text that was parsed.
pub spiffeid_text-parse_spiffe_id :
    (sid td p : Text)
    → parse_spiffe_id sid ≡ (true, td, p)
    → spiffeid_text (record { trust_domain = some td; path = some p }) ≡ sid
unfolding spiffeid_text
spiffeid_text-parse_spiffe_id sid td p h =
    let (same, plain) = parse_spiffe_id_sound sid td p h in
    ground (arith, check_spiffeid_validity-IsPlain td p plain)
