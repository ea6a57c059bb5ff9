-- ===== src/Tests/Macros.antt =====
-- An enum with a unit variant, a variant with an `Arc<Vec<..>>`, and one with a plain field.
use phira_mp.Common.{◌≡◌, refl, true, false, none, some, [], ◌∷◌, List, arith}
use phira_mp.Session.Handler.{codes}
use phira_mp.Macros.{
  Ty, path, no_arguments, angle_bracketed, type_argument, unit, unnamed, named, Variant, variable,
  positional, ReadArm, WriteArm, enumeration, of_enum, build_derive, build_derive_enum,
}
use phira_mp.Macros.Dispatch.{Selects, build_derive-Selects}

abbrev frames : Ty
frames = path (codes "Arc") (
    angle_bracketed (
      type_argument (
        path (codes "Vec")
          (angle_bracketed (type_argument (path (codes "TouchFrame") no_arguments))))))

abbrev variants : List Variant
variants =
    record { ident = codes "Ping"; fields = unit }
    ∷ record {
      ident = codes "Touches";
      fields =
          named ((codes "player", path (codes "i32") no_arguments) ∷ (codes "frames", frames) ∷ []);
    }
    ∷ record { ident = codes "Chat"; fields = unnamed (path (codes "SResult") no_arguments ∷ []) }
    ∷ []

abbrev reads : List ReadArm
reads =
    record { tag = 0; ident = codes "Ping"; reads = [] }
    ∷ record {
      tag = 1;
      ident = codes "Touches";
      reads =
          record { name = some (codes "player"); array = false; into = false }
          ∷ record { name = some (codes "frames"); array = true; into = true }
          ∷ [];
    }
    ∷ record {
      tag = 2;
      ident = codes "Chat";
      reads = record { name = none; array = false; into = false } ∷ [];
    }
    ∷ []

abbrev touches : WriteArm
touches = record {
  ident = codes "Touches";
  names = variable (codes "player") ∷ variable (codes "frames") ∷ [];
  tag = 1;
  writes =
      record { array = false; field = variable (codes "player") }
      ∷ record { array = true; field = variable (codes "frames") }
      ∷ [];
}

abbrev writes : List WriteArm
writes =
    record { ident = codes "Ping"; names = []; tag = 0; writes = [] }
    ∷ touches
    ∷ record {
      ident = codes "Chat";
      names = positional 0 ∷ [];
      tag = 2;
      writes = record { array = false; field = positional 0 } ∷ [];
    }
    ∷ []

derived : build_derive (enumeration variants) ≡ some (of_enum reads writes)
unfolding build_derive build_derive_enum
derived = refl

build_derive-Selects_example : Selects reads touches
build_derive-Selects_example =
    build_derive-Selects variants reads writes 1 touches (omega arith) derived refl
