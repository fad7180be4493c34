-- ===== src/Grep/Search.antt =====
-- `match` of user/grep.c finds exactly the texts that have a part in the pattern's language.
use cs_3224_operating_system.Base.{
  ℕ, ◌≡◌, ◌≢◌, refl, ap, sym, ◌⊎◌, inl, inr, ◌↔◌, Bool, true, false, ◌||◌, List, [], ◌∷◌, ◌++◌,
  arith, if◌then◌else◌, ◌==◌, Bool-cases, subst,
}
use cs_3224_operating_system.Grep.{matchstar, matchhere, search, match}
use cs_3224_operating_system.Grep.Language.{
  Item, Pattern, before, parse, Fits, Spells, Here, Here-skip, Here-again, Here-next, many-Here,
  one-Here, end-Here,
}

tail_eq : {t t' : ℕ} {ts ts' : List ℕ} → t ∷ ts ≡ t' ∷ ts' → (t ≡ t') × (ts ≡ ts')
tail_eq e = (cc, cc)

nothing : {t : ℕ} {ts : List ℕ} → [] ≡ t ∷ ts → ⊥
nothing e = cc

module _ (here : List ℕ → Bool) (p : Pattern)
    (iff : (ts : List ℕ) → (here ts ≡ true) ↔ Here p ts) where
  matchstar-Here :
      (c : ℕ) (text : List ℕ) → (matchstar here c text ≡ true) ↔ Here (before (Item.many c) p) text
  unfolding matchstar
  matchstar-Here c [] = (
    λ e. Here-skip c p [] ((iff []).0 e),
    λ h. elim (many-Here c p [] h) [
      | inl h' ↦ (iff []).1 h'
      | inr (t, ts, e, f, h') ↦ absurd (nothing e)
    ],
  )
  matchstar-Here c (t ∷ ts) =
      let rest = matchstar-Here c ts in
      elim (Bool-cases (here (t ∷ ts))) [
        | inl now ↦ rw now (λ e. Here-skip c p (t ∷ ts) ((iff (t ∷ ts)).0 now), λ h. refl)
        | inr miss ↦ elim (Bool-cases ((t == c) || (c == b'.'))) [
          | inl fit ↦
              let f : Fits c t = ground arith in
              rw (miss, fit)
                (
                  (λ e. Here-again c t p ts f (rest.0 e)),
                  (λ h. elim (many-Here c p (t ∷ ts) h) [
                    | inl h' ↦ let clash = (iff (t ∷ ts)).1 h' in absurd (cc)
                    | inr (t', ts', e, f', h') ↦
                        rest.1 (subst (λ l. Here (before (Item.many c) p) l) (sym (tail_eq e).1) h')
                  ]),
                )
          | inr unfit ↦
              rw (miss, unfit)
                (
                  (λ e. absurd (cc)),
                  (λ h. elim (many-Here c p (t ∷ ts) h) [
                    | inl h' ↦ let clash = (iff (t ∷ ts)).1 h' in absurd (cc)
                    | inr (t', ts', e, f', h') ↦ let et = (tail_eq e).0 in absurd (ground arith)
                  ]),
                )
        ]
      ]

-- One byte of the pattern against one of the text.
one-matches :
    (c t : ℕ) (p : Pattern) (ts : List ℕ) (b : Bool)
    → (b ≡ true) ↔ Here p ts
    → ((if (c == b'.') || (c == t) then b else false) ≡ true)
      ↔ Here (before (Item.one c) p) (t ∷ ts)
one-matches c t p ts b iff = elim (Bool-cases ((c == b'.') || (c == t))) [
  | inl fit ↦
      let f : Fits c t = ground arith in
      rw fit (
        (λ e. Here-next c t p ts f (iff.0 e)),
        (λ h.
            let (t', ts', e, f', h') = one-Here c p (t ∷ ts) h in
            iff.1 (subst (Here p) (sym (tail_eq e).1) h')),
      )
  | inr unfit ↦ rw unfit (
    (λ e. absurd (cc)),
    (λ h.
        let (t', ts', e, f', h') = one-Here c p (t ∷ ts) h in
        let et = (tail_eq e).0 in absurd (ground arith)),
  )
]

matchhere-Here : (re text : List ℕ) → (matchhere re text ≡ true) ↔ Here (parse re) text
unfolding matchhere parse
matchhere-Here [] text = (
  λ e. record {
    middle = [];
    after = text;
    split = refl;
    spells = Spells.end;
    last = λ z. absurd (cc);
  },
  λ h. refl,
)
matchhere-Here (c ∷ []) [] = elim (Bool-cases (c == b'$')) [
  | inl dollar ↦ rw dollar (
    (λ e. record { middle = []; after = []; split = refl; spells = Spells.end; last = λ z. refl }),
    (λ h. refl),
  )
  | inr plain ↦ rw plain (
    (λ e. absurd (cc)),
    (λ h. let (t, ts, e, f, h') = one-Here c (parse []) [] h in absurd (nothing e)),
  )
]
matchhere-Here (c ∷ []) (t ∷ ts) = elim (Bool-cases (c == b'$')) [
  | inl dollar ↦ rw dollar ((λ e. absurd (cc)), (λ h. absurd (nothing (sym (end-Here (t ∷ ts) h)))))
  | inr plain ↦ rw plain (one-matches c t (parse []) ts true (matchhere-Here [] ts))
]
matchhere-Here (c ∷ (d ∷ re)) [] = elim (Bool-cases (d == b'*')) [
  | inl star ↦ rw star (matchstar-Here (matchhere re) (parse re) (matchhere-Here re) c [])
  | inr plain ↦ rw plain (
    (λ e. absurd (cc)),
    (λ h. let (t, ts, e, f, h') = one-Here c (parse (d ∷ re)) [] h in absurd (nothing e)),
  )
]
matchhere-Here (c ∷ (d ∷ re)) (t ∷ ts) = elim (Bool-cases (d == b'*')) [
  | inl star ↦ rw star (matchstar-Here (matchhere re) (parse re) (matchhere-Here re) c (t ∷ ts))
  | inr plain ↦
      rw plain
        (one-matches c t (parse (d ∷ re)) ts (matchhere (d ∷ re) ts) (matchhere-Here (d ∷ re) ts))
]

-- The pattern fits at some place of the text.
abbrev pub Found : Pattern → List ℕ → Type 0
Found p text = (front rest : List ℕ) × (text ≡ front ++ rest) × Here p rest

search-Found :
    (here : List ℕ → Bool) (p : Pattern)
    → ((ts : List ℕ) → (here ts ≡ true) ↔ Here p ts)
    → (text : List ℕ) → (search here text ≡ true) ↔ Found p text
unfolding search
search-Found here p iff [] = ((λ e. ([], [], refl, (iff []).0 e)), back)
  where
    back : Found p [] → here [] ≡ true
    back ([], rest, e, h) = (iff []).1 (subst (Here p) (sym e) h)
    back (x ∷ front, rest, e, h) = absurd (nothing e)
search-Found here p iff (t ∷ ts) = elim (Bool-cases (here (t ∷ ts))) [
  | inl now ↦ rw now ((λ e. ([], t ∷ ts, refl, (iff (t ∷ ts)).0 now)), (λ h. refl))
  | inr miss ↦ rw miss (
    (λ e. later ((search-Found here p iff ts).0 e)),
    (λ h. back miss (search-Found here p iff ts).1 h),
  )
]
  where
    later : Found p ts → Found p (t ∷ ts)
    later (front, rest, e, h) = (t ∷ front, rest, ap (λ l. t ∷ l) e, h)

    back :
        here (t ∷ ts) ≡ false
        → (Found p ts → search here ts ≡ true)
        → Found p (t ∷ ts)
        → search here ts ≡ true
    back miss rec ([], rest, e, h) =
        let clash = (iff (t ∷ ts)).1 (subst (Here p) (sym e) h) in absurd (cc)
    back miss rec (x ∷ front, rest, e, h) = rec (front, rest, (tail_eq e).1, h)

-- What it means that a text matches: at its start after a '^', and anywhere else.
abbrev pub Matches : List ℕ → List ℕ → Type 0
Matches [] text = Found (parse []) text
Matches (c ∷ re) text =
    ((c ≡ b'^') × Here (parse re) text) ⊎ ((c ≢ b'^') × Found (parse (c ∷ re)) text)

-- `match` says that a text matches exactly when, for a pattern that starts with '^', the rest of
-- the pattern spells a first part of the text, and for any other pattern, the pattern spells some
-- part of it: a part that ends where the text ends, if the pattern ends with '$'.
pub match-Matches : (re text : List ℕ) → (match re text ≡ true) ↔ Matches re text
unfolding match
match-Matches [] text = search-Found (matchhere []) (parse []) (matchhere-Here []) text
match-Matches (c ∷ re) text = elim (Bool-cases (c == b'^')) [
  | inl start ↦
      let at_start : c ≡ b'^' = ground arith in
      rw start (
        (λ e. inl (at_start, (matchhere-Here re text).0 e)),
        (λ m. elim m [
          | inl (e, h) ↦ (matchhere-Here re text).1 h
          | inr (ne, f) ↦ absurd (ne at_start)
        ]),
      )
  | inr free ↦
      let not_start : c ≢ b'^' = ground arith in
      let found =
        search-Found (matchhere (c ∷ re)) (parse (c ∷ re)) (matchhere-Here (c ∷ re)) text in
      rw free (
        (λ e. inr (not_start, found.0 e)),
        (λ m. elim m [ inl (e, h) ↦ absurd (not_start e) | inr (ne, f) ↦ found.1 f ]),
      )
]
