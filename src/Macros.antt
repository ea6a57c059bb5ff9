-- ===== src/Macros.antt =====
-- phira-mp-macros/src/lib.rs: what `derive(BinaryData)` expands a declaration to. The code that is
-- generated is a syntax of its own: the fields that are read, the statements that write, and the arms
-- of a `match`. `none` is a panic of the macro.
pub mod Dispatch
use phira_mp.Common.{
  ℕ, ◌+◌, ◌%◌, ◌^◌, zero, suc, Bool, true, false, Option, none, some, List, [], ◌∷◌, map,
  if◌then◌else◌, ◌==◌,
}
use mathlib.Core.Option
use phira_mp.Common.Eq.{bytes_beq}
use phira_mp.Bin.Reader.{Bytes}
use phira_mp.Session.Handler.{codes}

-- Types as syn parses them, as far as `parse_type` looks: the last segment of a path with its
-- arguments, or another type.
mutual
  pub data Ty : Type 0 where
    path : Bytes → PathArguments → Ty
    other : Ty

  pub data PathArguments : Type 0 where
    no_arguments parenthesized angle_bracketed_empty : PathArguments
    angle_bracketed : GenericArgument → PathArguments

  pub data GenericArgument : Type 0 where
    type_argument : Ty → GenericArgument
    lifetime : GenericArgument

pub record TypeInfo : Type 0 where
  pub is_arc : Bool
  pub is_vec : Bool

-- The first argument; `unreachable!()` and the index panic.
unfoldable pub argument : PathArguments → Option Ty
argument (angle_bracketed (type_argument ty)) = some ty
argument (angle_bracketed lifetime) = none
argument no_arguments = none
argument parenthesized = none
argument angle_bracketed_empty = none

-- The second `match`: a `Vec` has to have an argument.
unfoldable pub parse_vec : Bool → Ty → Option TypeInfo
unfolding argument
parse_vec arc other = some (record { is_arc = arc; is_vec = false })
parse_vec arc (path ident args) =
    if bytes_beq ident (codes "Vec")
    then Option.map (λ ty. record { is_arc = arc; is_vec = true }) (argument args)
    else some (record { is_arc = arc; is_vec = false })

unfoldable pub parse_type : Ty → Option TypeInfo
unfolding parse_vec argument
parse_type other = parse_vec false other
parse_type (path ident args) =
    if bytes_beq ident (codes "Arc")
    then elim (argument args) [ none ↦ none | some ty ↦ parse_vec true ty ]
    else parse_vec false (path ident args)

pub data Fields : Type 0 where
  unit : Fields
  unnamed : List Ty → Fields
  named : List (Bytes × Ty) → Fields

pub record Variant : Type 0 where
  pub ident : Bytes
  pub fields : Fields

-- `#name: r.read()?`, `r.array()?`, and so on.
pub record FieldRead : Type 0 where
  pub name : Option Bytes
  pub array : Bool
  pub into : Bool

-- `&self.#name`, `&self.#i`, `#name` and `_i`.
pub data Place : Type 0 where
  self_field : Bytes → Place
  self_index : ℕ → Place
  variable : Bytes → Place
  positional : ℕ → Place

-- `w.write(#field)?;` or `w.array(#field)?;`
pub record FieldWrite : Type 0 where
  pub array : Bool
  pub field : Place

unfoldable pub cons? {ℓ} : {A : Type ℓ} → Option A → Option (List A) → Option (List A)
cons? none xs = none
cons? (some a) none = none
cons? (some a) (some xs) = some (a ∷ xs)

abbrev pub Parsed : Type 0
Parsed = List (Option Bytes × TypeInfo)

-- The fields with their `parse_type`.
unfoldable pub parse_unnamed : List Ty → Option Parsed
unfolding parse_type cons?
parse_unnamed [] = some []
parse_unnamed (ty ∷ tys) =
    cons? (Option.map (λ info. (none, info)) (parse_type ty)) (parse_unnamed tys)

unfoldable pub parse_named : List (Bytes × Ty) → Option Parsed
unfolding parse_type cons?
parse_named [] = some []
parse_named ((ident, ty) ∷ fs) =
    cons? (Option.map (λ info. (some ident, info)) (parse_type ty)) (parse_named fs)

unfoldable pub parse_fields : Fields → Option Parsed
unfolding parse_unnamed parse_named
parse_fields unit = some []
parse_fields (unnamed tys) = parse_unnamed tys
parse_fields (named fs) = parse_named fs

unfoldable pub field_read : Option Bytes × TypeInfo → FieldRead
field_read (name, info) = record { name = name; array = info.is_vec; into = info.is_arc }

unfoldable pub struct_read : Parsed → List FieldRead
unfolding field_read
struct_read fields = map field_read fields

unfoldable pub place : Bool → ℕ → Option Bytes → Place
place true i (some name) = self_field name
place true i none = self_index (i % 2 ^ 8)
place false i (some name) = variable name
place false i none = positional i

-- From the index `i` on.
unfoldable pub struct_write : Bool → ℕ → Parsed → List FieldWrite
unfolding place
struct_write use_self i [] = []
struct_write use_self i ((name, info) ∷ fields) =
    record { array = info.is_vec; field = place use_self i name }
    ∷ struct_write use_self (i + 1) fields

-- `#i => Self::#name { #fields }`
pub record ReadArm : Type 0 where
  pub tag : ℕ
  pub ident : Bytes
  pub reads : List FieldRead

-- `Self::#name { #(#names,)* } => { w.write_val(#i)?; #writes }`
pub record WriteArm : Type 0 where
  pub ident : Bytes
  pub names : List Place
  pub tag : ℕ
  pub writes : List FieldWrite

unfoldable pub positions : ℕ → List Ty → List Place
positions i [] = []
positions i (ty ∷ tys) = positional i ∷ positions (i + 1) tys

unfoldable pub bindings : Fields → List Place
unfolding positions
bindings unit = []
bindings (unnamed tys) = positions 0 tys
bindings (named fs) = map (λ (ident, ty). variable ident) fs

unfoldable pub read_arm : ℕ → Variant → Option ReadArm
unfolding parse_fields struct_read
read_arm i v =
    Option.map (λ fs. record { tag = i % 2 ^ 8; ident = v.ident; reads = struct_read fs })
      (parse_fields v.fields)

unfoldable pub write_arm : ℕ → Variant → Option WriteArm
unfolding parse_fields struct_write bindings
write_arm i v =
    Option.map
      (λ fs. record {
        ident = v.ident;
        names = bindings v.fields;
        tag = i % 2 ^ 8;
        writes = struct_write false 0 fs;
      })
      (parse_fields v.fields)

-- The arms of an enum, from the index `i` on; behind the read arms comes the one that bails.
unfoldable pub read_arms : ℕ → List Variant → Option (List ReadArm)
unfolding read_arm cons?
read_arms i [] = some []
read_arms i (v ∷ vs) = cons? (read_arm i v) (read_arms (i + 1) vs)

unfoldable pub write_arms : ℕ → List Variant → Option (List WriteArm)
unfolding write_arm cons?
write_arms i [] = some []
write_arms i (v ∷ vs) = cons? (write_arm i v) (write_arms (i + 1) vs)

pub data Data : Type 0 where
  structure : Fields → Data
  enumeration : List Variant → Data
  union : Data

pub data Derived : Type 0 where
  of_struct : List FieldRead → List FieldWrite → Derived
  of_enum : List ReadArm → List WriteArm → Derived

unfoldable pub build_derive_struct : Fields → Option Derived
unfolding parse_fields struct_read struct_write
build_derive_struct fields =
    Option.map (λ fs. of_struct (struct_read fs) (struct_write true 0 fs)) (parse_fields fields)

unfoldable pub build_derive_enum : List Variant → Option Derived
unfolding read_arms write_arms
build_derive_enum vs = elim (read_arms 0 vs) [
  | none ↦ none
  | some rs ↦ elim (write_arms 0 vs) [ none ↦ none | some ws ↦ some (of_enum rs ws) ]
]

unfoldable pub build_derive : Data → Option Derived
unfolding build_derive_struct build_derive_enum
build_derive (structure fields) = build_derive_struct fields
build_derive (enumeration vs) = build_derive_enum vs
build_derive union = none

-- Which arm a tag selects: the first that has it; without one, reading bails.
unfoldable pub select : ℕ → List ReadArm → Option ReadArm
select t [] = none
select t (r ∷ rs) = if r.tag == t then some r else select t rs
