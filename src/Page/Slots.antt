-- ===== src/Page/Slots.antt =====
-- Entries in consecutive slots of 20 bytes behind a header, the layout that hash buckets and leaf
-- nodes share.
use recovery_stencil.Prelude.{
  ℕ, ◌+◌, ◌*◌, ◌≤◌, ◌<◌, ◌≡◌, refl, sym, ◌∙◌, ◌⊎◌, inl, inr, Option, none, some, List, arith,
  length, get_elem?, put_at, get_elem?-put_at, get_elem?-some_lt, ◌>>=◌, Bool-cases, ◌≢◌, ltb, take,
  length-take, length-put_at_le, get_elem?_lt,
}
use recovery_stencil.Prelude.Shift.{get_elem?-take}
use native.Mathlib.Decide.{ℕ_discrete}
use recovery_stencil.Entry.{Entry, marshal, unmarshal_entry}
use recovery_stencil.Entry.RoundTrip.{InRange, unmarshal_entry-marshal}
use recovery_stencil.Page.{Page, slice, update}
use recovery_stencil.Page.Bytes.{Written, update-Written}

module _ (header : ℕ) where
  abbrev pub slot_pos : ℕ → ℕ
  slot_pos i = header + i * 20

  abbrev pub read_slot : Page → ℕ → Option Entry
  read_slot p i = do bs ← slice p.bytes (slot_pos i) (slot_pos i + 20); some (unmarshal_entry bs)

  abbrev pub write_slot : Page → ℕ → Entry → Option Page
  write_slot p i e = do src ← marshal e; update p src (slot_pos i) 20

-- The page has room for `cap` slots, and its first slots hold the entries of the list.
pub record Slots (header cap : ℕ) (p : Page) (es : List Entry) : Type 0 where
  pub room : header + cap * 20 ≤ length p.bytes
  pub count : length es ≤ cap
  pub stored :
      (i : ℕ) (e : Entry) → get_elem? es i ≡ some e → (read_slot header p i ≡ some e) × InRange e

-- A page that differs from another in its slots alone.
pub record SameHeader (header : ℕ) (p p' : Page) : Type 0 where
  pub pagenum : p'.pagenum ≡ p.pagenum
  pub pins : p'.pin_count ≡ p.pin_count
  pub size : length p'.bytes ≡ length p.bytes
  pub header_bytes :
      (lo m : ℕ) → lo + m ≤ header → slice p'.bytes lo (lo + m) ≡ slice p.bytes lo (lo + m)

pub SameHeader-refl : (header : ℕ) (p : Page) → SameHeader header p p
SameHeader-refl header p = record {
  pagenum = refl;
  pins = refl;
  size = refl;
  header_bytes = λ lo m h. refl;
}

pub SameHeader-trans :
    {header : ℕ} {p q r : Page}
    → SameHeader header p q
    → SameHeader header q r
    → SameHeader header p r
SameHeader-trans a b = record {
  pagenum = cc (a.pagenum, b.pagenum);
  pins = cc (a.pins, b.pins);
  size = omega (arith, a.size, b.size);
  header_bytes = λ lo m h. cc (a.header_bytes lo m h, b.header_bytes lo m h);
}

slots_apart : (i j : ℕ) → i ≢ j → (i * 20 + 20 ≤ j * 20) ⊎ (j * 20 + 20 ≤ i * 20)
slots_apart i j ne = elim (Bool-cases (ltb i j)) [
  | inl lt ↦ inl (ground arith)
  | inr ge ↦ inr (ground arith)
]

apart :
    (header i j : ℕ)
    → i ≢ j
    → (slot_pos header j + 20 ≤ slot_pos header i) ⊎ (slot_pos header i + 20 ≤ slot_pos header j)
apart header i j ne = elim (slots_apart i j ne) [
  | inl lo ↦ inr (omega arith)
  | inr hi ↦ inl (omega arith)
]

elim_bind {ℓ} :
    {A C : Type 0} {B : Type ℓ} {y : C} (m : Option A) (f : A → Option C) (g : C → Option B)
    → (m >>= f) ≡ some y
    → (m >>= λ a. f a >>= g) ≡ g y
elim_bind none f g h = cc
elim_bind (some a) f g h = rw h

module _ (header : ℕ) where
  -- a slot other than the one that was written reads as before
  other_slot :
      {p p' : Page} {src : List ℕ} (i j cap : ℕ)
      → Written p (slot_pos header i) 20 src p'
      → header + cap * 20 ≤ length p.bytes
      → j < cap
      → i ≢ j
      → read_slot header p' j ≡ read_slot header p j
  other_slot {p} i j cap w room lt ne =
      let fits : slot_pos header j + 20 ≤ length p.bytes = omega arith in
      let e = w.others (slot_pos header j) 20 fits (apart header i j ne) in rw e

  pub write_slot_lem :
      (p : Page) (cap i : ℕ) (e : Entry)
      → header + cap * 20 ≤ length p.bytes
      → i < cap
      → InRange e
      → (p' : Page) × (write_slot header p i e ≡ some p')
        × (read_slot header p' i ≡ some e)
        × ((j : ℕ) → j < cap → i ≢ j → read_slot header p' j ≡ read_slot header p j)
        × SameHeader header p p'
  write_slot_lem p cap i e room lt fit =
      let (src, run, len, back) = unmarshal_entry-marshal e fit in
      let fits : slot_pos header i + 20 ≤ length p.bytes = omega arith in
      let (p', run', w) = update-Written p src (slot_pos header i) 20 fits len in
      (
        p',
        rw (run, run'),
        rw (w.read, back),
        λ j lt_j ne. other_slot i j cap w room lt_j ne,
        record {
          pagenum = w.pagenum;
          pins = w.pins;
          size = w.size;
          header_bytes = λ lo m h. w.others lo m (omega arith) (inl (omega arith));
        },
      )

  stored_after :
      {cap : ℕ} {p : Page} {es : List Entry} (p' : Page) (i : ℕ) (e : Entry)
      → Slots header cap p es
      → i ≤ length es
      → InRange e
      → read_slot header p' i ≡ some e
      → ((j : ℕ) → j < cap → i ≢ j → read_slot header p' j ≡ read_slot header p j)
      → (j : ℕ) (x : Entry) → get_elem? (put_at es i e) j ≡ some x
      → (read_slot header p' j ≡ some x) × InRange x
  stored_after {es = es} p' i e s le fit own rest j x h = elim (ℕ_discrete i j) [
    | yes eq ↦
        let here : get_elem? (put_at es i e) j ≡ some e =
          get_elem?-put_at es i j e le ∙ ground arith in
        let same : e ≡ x = cc (here, h) in (rw (← eq, ← same) own, rw (← same) fit)
    | no ne ↦
        let there : get_elem? (put_at es i e) j ≡ get_elem? es j =
          get_elem?-put_at es i j e le ∙ ground arith in
        let old : get_elem? es j ≡ some x = sym there ∙ h in
        let (r, fit_x) = s.stored j x old in
        let lt = get_elem?-some_lt es j x old in (rest j (omega arith) ne ∙ r, fit_x)
  ]

  -- A write to one of the slots in use, or to the first free one, acts on the list of entries.
  pub write_slot-Slots :
      {cap : ℕ} {p : Page} {es : List Entry} (i : ℕ) (e : Entry)
      → Slots header cap p es
      → i ≤ length es
      → i < cap
      → InRange e
      → (p' : Page) × (write_slot header p i e ≡ some p')
        × Slots header cap p' (put_at es i e)
        × SameHeader header p p'
  write_slot-Slots {cap} {p} {es} i e s le lt fit =
      let (p', run, own, rest, same) = write_slot_lem p cap i e s.room lt fit in
      (
        p',
        run,
        record {
          room = omega (arith, s.room, same.size);
          count = length-put_at_le es i cap e le lt s.count;
          stored = λ j x h. stored_after p' i e s le fit own rest j x h;
        },
        same,
      )

  pub read_slot-Slots :
      {cap : ℕ} {p : Page} {es : List Entry} (i : ℕ)
      → Slots header cap p es
      → i < length es
      → (e : Entry) × (get_elem? es i ≡ some e) × (read_slot header p i ≡ some e) × InRange e
  read_slot-Slots {es = es} i s lt =
      let (e, at) = get_elem?_lt es i lt in let (r, fit) = s.stored i e at in (e, at, r, fit)

  -- A write to the header leaves the slots as they are.
  pub header_write-Slots :
      {cap : ℕ} {p p' : Page} {es : List Entry} (off n : ℕ) (src : List ℕ)
      → Slots header cap p es
      → off + n ≤ header
      → Written p off n src p'
      → Slots header cap p' es
  header_write-Slots off n src s le w = record {
    room = omega (arith, s.room, w.size);
    count = s.count;
    stored = λ i e at.
        let lt = get_elem?-some_lt _ i e at in
        let same =
          w.others (slot_pos header i) 20 (omega (arith, s.room, s.count)) (inr (omega arith)) in
        let (r, fit) = s.stored i e at in (rw same r, fit);
  }

  -- The first entries alone.
  pub Slots-take :
      {cap : ℕ} {p : Page} {es : List Entry} (n : ℕ)
      → Slots header cap p es
      → Slots header cap p (take n es)
  Slots-take {es = es} n s = record {
    room = s.room;
    count = omega (arith, s.count, length-take n es);
    stored = λ i e at. s.stored i e (get_elem?-take n es i e at);
  }

  -- A block that marshals an entry, writes it to its slot and goes on with the page.
  pub write_slot-bind {ℓ} :
      {B : Type ℓ} (p : Page) {p' : Page} (i : ℕ) (e : Entry) (g : Page → Option B)
      → write_slot header p i e ≡ some p'
      → (marshal e >>= λ src. update p src (slot_pos header i) 20 >>= g) ≡ g p'
  write_slot-bind p i e g run =
      elim_bind (marshal e) (λ src. update p src (slot_pos header i) 20) g run
