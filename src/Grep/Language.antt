-- ===== src/Grep/Language.antt =====
-- What a pattern of user/grep.c means, as a set of texts, and that `matchhere` decides it.
use cs_3224_operating_system.Base.{
  ℕ, ◌≡◌, refl, ◌∙◌, ap, ◌⊎◌, inl, inr, Bool, true, false, List, [], ◌∷◌, ◌++◌, if◌then◌else◌, ◌==◌,
}

-- One byte, or any number of one byte; the byte '.' stands for each byte.
pub data Item : Type 0 where
  one : ℕ → Item
  many : ℕ → Item

-- The items of a pattern, and whether a final '$' ties it to the end of the text.
pub record Pattern : Type 0 where
  pub items : List Item
  pub to_end : Bool

abbrev pub before : Item → Pattern → Pattern
before i p = record { items = i ∷ p.items; to_end = p.to_end }

unfoldable pub parse : List ℕ → Pattern
parse [] = record { items = []; to_end = false }
parse (c ∷ []) =
    if c == b'$'
    then record { items = []; to_end = true }
    else record { items = Item.one c ∷ []; to_end = false }
parse (c ∷ (d ∷ re)) =
    let starred = before (Item.many c) (parse re) in
    let plain = before (Item.one c) (parse (d ∷ re)) in if d == b'*' then starred else plain

abbrev pub Fits : ℕ → ℕ → Type 0
Fits c t = (c ≡ b'.') ⊎ (c ≡ t)

-- The texts that a list of items spells.
pub data Spells : List Item → List ℕ → Type 0 where
  end : Spells [] []
  next :
      {c t : ℕ} {is : List Item} {ts : List ℕ}
      → Fits c t
      → Spells is ts
      → Spells (Item.one c ∷ is) (t ∷ ts)
  skip : {c : ℕ} {is : List Item} {ts : List ℕ} → Spells is ts → Spells (Item.many c ∷ is) ts
  again :
      {c t : ℕ} {is : List Item} {ts : List ℕ}
      → Fits c t
      → Spells (Item.many c ∷ is) ts
      → Spells (Item.many c ∷ is) (t ∷ ts)

-- The pattern fits at the start of the text.
pub record Here (p : Pattern) (text : List ℕ) : Type 0 where
  pub middle : List ℕ
  pub after : List ℕ
  pub split : text ≡ middle ++ after
  pub spells : Spells p.items middle
  pub last : p.to_end ≡ true → after ≡ []

pub Here-skip :
    (c : ℕ) (p : Pattern) (text : List ℕ) → Here p text → Here (before (Item.many c) p) text
Here-skip c p text h = record {
  middle = h.middle;
  after = h.after;
  split = h.split;
  spells = Spells.skip h.spells;
  last = h.last;
}

pub Here-again :
    (c t : ℕ) (p : Pattern) (ts : List ℕ)
    → Fits c t
    → Here (before (Item.many c) p) ts
    → Here (before (Item.many c) p) (t ∷ ts)
Here-again c t p ts f h = record {
  middle = t ∷ h.middle;
  after = h.after;
  split = ap (λ l. t ∷ l) h.split;
  spells = Spells.again f h.spells;
  last = h.last;
}

pub Here-next :
    (c t : ℕ) (p : Pattern) (ts : List ℕ)
    → Fits c t
    → Here p ts
    → Here (before (Item.one c) p) (t ∷ ts)
Here-next c t p ts f h = record {
  middle = t ∷ h.middle;
  after = h.after;
  split = ap (λ l. t ∷ l) h.split;
  spells = Spells.next f h.spells;
  last = h.last;
}

-- A text that starts with any number of one byte starts with none or with one more.
pub many-Here :
    (c : ℕ) (p : Pattern) (text : List ℕ)
    → Here (before (Item.many c) p) text
    → Here p text
      ⊎ ((t : ℕ) × (ts : List ℕ) × (text ≡ t ∷ ts) × Fits c t × Here (before (Item.many c) p) ts)
many-Here c p text h = go h.middle h.after h.split h.spells h.last
  where
    go :
        (m a : List ℕ)
        → text ≡ m ++ a
        → Spells (Item.many c ∷ p.items) m
        → (p.to_end ≡ true → a ≡ [])
        → Here p text
          ⊎ ((t : ℕ) × (ts : List ℕ) × (text ≡ t ∷ ts)
              × Fits c t
              × Here (before (Item.many c) p) ts)
    go m a e (Spells.skip s) z =
        inl (record { middle = m; after = a; split = e; spells = s; last = z })
    go (t ∷ m) a e (Spells.again f s) z =
        inr (t, m ++ a, e, f, record { middle = m; after = a; split = refl; spells = s; last = z })

pub one-Here :
    (c : ℕ) (p : Pattern) (text : List ℕ)
    → Here (before (Item.one c) p) text
    → (t : ℕ) × (ts : List ℕ) × (text ≡ t ∷ ts) × Fits c t × Here p ts
one-Here c p text h = go h.middle h.after h.split h.spells h.last
  where
    go :
        (m a : List ℕ)
        → text ≡ m ++ a
        → Spells (Item.one c ∷ p.items) m
        → (p.to_end ≡ true → a ≡ [])
        → (t : ℕ) × (ts : List ℕ) × (text ≡ t ∷ ts) × Fits c t × Here p ts
    go [] a e s z = elim s [ ]
    go (t ∷ m) a e (Spells.next f s) z =
        (t, m ++ a, e, f, record { middle = m; after = a; split = refl; spells = s; last = z })

pub end-Here : (text : List ℕ) → Here (record { items = []; to_end = true }) text → text ≡ []
end-Here text h = go h.middle h.after h.split h.spells (h.last refl)
  where
    go : (m a : List ℕ) → text ≡ m ++ a → Spells [] m → a ≡ [] → text ≡ []
    go [] a e Spells.end z = e ∙ z
    go (x ∷ m) a e s z = elim s [ ]
