-- ===== src/Policy/Disk/Bools.antt =====
-- policy/radix_disk.rs: what a passed check says of its parts.
use pari_ns.Prelude.{◌≡◌, refl, Bool, true, false, ◌&&◌, Option, none, some, some_eq, if◌then◌else◌}

pub if_some :
    {A : Type 0} (b : Bool) (x y : A) → (if b then some x else none) ≡ some y → (b ≡ true) × (x ≡ y)
if_some true x y h = (refl, some_eq h)
if_some false x y h = cc

pub if_else_none :
    {A : Type 0} (b : Bool) (x : Option A) (y : A)
    → (if b then x else none) ≡ some y
    → (b ≡ true) × (x ≡ some y)
if_else_none true x y h = (refl, h)
if_else_none false x y h = cc

pub if_none_else :
    {A : Type 0} (b : Bool) (x : Option A) (y : A) → (if b then none else x) ≡ some y → x ≡ some y
if_none_else true x y h = cc
if_none_else false x y h = h

pub if_yes : {A : Type 0} (b : Bool) (x y : A) → b ≡ true → (if b then x else y) ≡ x
if_yes b x y h = rw h refl

pub if_no : {A : Type 0} (b : Bool) (x y : A) → b ≡ false → (if b then x else y) ≡ y
if_no b x y h = rw h refl

pub left : (a b : Bool) → (a && b) ≡ true → a ≡ true
left true b h = refl
left false b h = cc

pub right : (a b : Bool) → (a && b) ≡ true → b ≡ true
right true b h = h
right false b h = cc
