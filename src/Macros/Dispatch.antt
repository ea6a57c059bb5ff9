-- ===== src/Macros/Dispatch.antt =====
-- A derived reader takes the arm of the variant that a derived writer wrote.
use phira_mp.Common.{
  ℕ, ◌+◌, ◌%◌, ◌^◌, ◌≤◌, ◌≡◌, refl, sym, ap, ◌∙◌, zero, suc, Bool, false, Option, none, some, List,
  [], ◌∷◌, map, length, get_elem?, ==_iff, Option-cases, inl, inr, arith,
}
use phira_mp.Macros.{
  Variant, FieldRead, FieldWrite, Parsed, cons?, parse_fields, field_read, struct_read,
  struct_write, ReadArm, WriteArm, read_arm, write_arm, read_arms, write_arms, bindings,
  enumeration, of_enum, build_derive, build_derive_enum, select,
}

-- Which fields are arrays.
abbrev pub read_shape : List FieldRead → List Bool
read_shape rs = map (λ (r : FieldRead). r.array) rs

abbrev pub write_shape : List FieldWrite → List Bool
write_shape ws = map (λ (w : FieldWrite). w.array) ws

shapes :
    (use_self : Bool) (i : ℕ) (fs : Parsed)
    → read_shape (struct_read fs) ≡ write_shape (struct_write use_self i fs)
unfolding struct_read struct_write field_read
shapes use_self i [] = refl
shapes use_self i ((name, info) ∷ fs) = ap (λ xs. info.is_vec ∷ xs) (shapes use_self (i + 1) fs)

cons?-some {ℓ} :
    {A : Type ℓ} (a : Option A) (xs : Option (List A)) (ys : List A)
    → cons? a xs ≡ some ys
    → (x : A) × (rest : List A) × (a ≡ some x) × (xs ≡ some rest) × (x ∷ rest ≡ ys)
unfolding cons?
cons?-some none xs ys h = cc
cons?-some (some a) none ys h = cc
cons?-some (some a) (some xs) ys h = (a, xs, refl, refl, cc h)

-- Both arms of a variant come from its fields.
arms :
    (i : ℕ) (v : Variant) (r : ReadArm) (w : WriteArm)
    → read_arm i v ≡ some r
    → write_arm i v ≡ some w
    → (r.tag ≡ i % 2 ^ 8)
      × (w.tag ≡ i % 2 ^ 8)
      × (r.ident ≡ w.ident)
      × (read_shape r.reads ≡ write_shape w.writes)
unfolding read_arm write_arm
arms i v r w hr hw = elim (Option-cases (parse_fields v.fields)) [
  | inl e ↦ cc (rw (e, read_arm) at hr)
  | inr (fs, e) ↦
      let er : record { tag = i % 2 ^ 8; ident = v.ident; reads = struct_read fs } ≡ r =
        cc (rw (e, read_arm) at hr) in
      let ew : record {
        ident = v.ident;
        names = bindings v.fields;
        tag = i % 2 ^ 8;
        writes = struct_write false 0 fs;
      }
          ≡ w =
        cc (rw (e, write_arm) at hw) in
      (
        ap (λ (x : ReadArm). x.tag) (sym er),
        ap (λ (x : WriteArm). x.tag) (sym ew),
        ap (λ (x : ReadArm). x.ident) (sym er) ∙ ap (λ (x : WriteArm). x.ident) ew,
        ap (λ (x : ReadArm). read_shape x.reads) (sym er)
            ∙ shapes false 0 fs
            ∙ ap (λ (x : WriteArm). write_shape x.writes) ew,
      )
]

-- What reading selects for the arm `w`, and that it fits.
abbrev pub Selects : List ReadArm → WriteArm → Type 0
Selects rs w =
    (r : ReadArm) × (select w.tag rs ≡ some r)
    × (r.ident ≡ w.ident)
    × (read_shape r.reads ≡ write_shape w.writes)

find_arm :
    (i : ℕ) (vs : List Variant) (rs : List ReadArm) (ws : List WriteArm) (j : ℕ) (w : WriteArm)
    → i + length vs ≤ 2 ^ 8
    → read_arms i vs ≡ some rs
    → write_arms i vs ≡ some ws
    → get_elem? ws j ≡ some w
    → (i ≤ w.tag) × Selects rs w
unfolding read_arms write_arms select
find_arm i [] rs ws j w small hr hw hj =
    let none_left : [] ≡ ws = cc hw in cc (rw (← none_left) at hj)
find_arm i (v ∷ vs) rs ws j w small hr hw hj =
    let (r, rs', er, hr', qr) = cons?-some (read_arm i v) (read_arms (i + 1) vs) rs hr in
    let (w0, ws', ew, hw', qw) = cons?-some (write_arm i v) (write_arms (i + 1) vs) ws hw in
    let (rtag, wtag, name, shape) = arms i v r w0 er ew in
    rw (← qr) (
      found r rs' w0 ws' rtag wtag name shape j (ap (λ xs. get_elem? xs j) qw ∙ hj)
        (λ k q. find_arm (i + 1) vs rs' ws' k w (omega (arith, small)) hr' hw' q))
  where
    found :
        (r : ReadArm) (rs' : List ReadArm) (w0 : WriteArm) (ws' : List WriteArm)
        → r.tag ≡ i % 2 ^ 8
        → w0.tag ≡ i % 2 ^ 8
        → r.ident ≡ w0.ident
        → read_shape r.reads ≡ write_shape w0.writes
        → (k : ℕ) → get_elem? (w0 ∷ ws') k ≡ some w
        → ((m : ℕ) → get_elem? ws' m ≡ some w → (i + 1 ≤ w.tag) × Selects rs' w)
        → (i ≤ w.tag) × Selects (r ∷ rs') w
    found r rs' w0 ws' rtag wtag name shape zero q later =
        let same : w0 ≡ w = cc q in
        rw (← same) (
          omega (arith, wtag, small),
          (r, rw ((==_iff r.tag w0.tag).1 (rtag ∙ sym wtag)) refl, name, shape),
        )
    found r rs' w0 ws' rtag wtag name shape (suc k) q later =
        let (above, (x, e, alike, fits)) = later k q in
        (omega (arith, above), (x, ground (arith, e, above, rtag, small), alike, fits))

build_derive-arms :
    (vs : List Variant) (rs : List ReadArm) (ws : List WriteArm)
    → build_derive (enumeration vs) ≡ some (of_enum rs ws)
    → (read_arms 0 vs ≡ some rs) × (write_arms 0 vs ≡ some ws)
unfolding build_derive build_derive_enum
build_derive-arms vs rs ws h = elim (Option-cases (read_arms 0 vs)) [
  | inl e ↦ cc (rw (e, build_derive, build_derive_enum) at h)
  | inr (rs', e) ↦ elim (Option-cases (write_arms 0 vs)) [
    | inl q ↦ cc (rw (e, q, build_derive, build_derive_enum) at h)
    | inr (ws', q) ↦
        let same : some (of_enum rs' ws') ≡ some (of_enum rs ws) =
          rw (e, q, build_derive, build_derive_enum) at h in
        (e ∙ cc same, q ∙ cc same)
  ]
]

-- The macro expands an enum of at most 256 variants without a panic. Then the tag that any arm of
-- the derived `write_binary` writes selects, in the derived `read_binary`, the arm of the variant of
-- the same name, and this arm reads as an array just the fields that the other writes as an array.
pub build_derive-Selects :
    (vs : List Variant) (rs : List ReadArm) (ws : List WriteArm) (j : ℕ) (w : WriteArm)
    → length vs ≤ 2 ^ 8
    → build_derive (enumeration vs) ≡ some (of_enum rs ws)
    → get_elem? ws j ≡ some w
    → Selects rs w
build_derive-Selects vs rs ws j w small h hj =
    let (hr, hw) = build_derive-arms vs rs ws h in
    (find_arm 0 vs rs ws j w (omega (arith, small)) hr hw hj).1
