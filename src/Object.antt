-- ===== src/Object.antt =====
-- ObjectModule/Object.hpp and the data of ObjectModule/Pet.hpp.
pub mod Heap
pub mod Manager
pub mod Parse
pub mod Handlers
use pets_server_linux.Common.{ℕ, Option, none, some, Text, ◌==◌, if◌then◌else◌, replicate}

-- NetMsg/Define.hpp
abbrev pub iid_pets : ℕ
iid_pets = 0x1

pub record Point : Type 0 where
  pub x : ℕ
  pub y : ℕ

-- The columns that are stored; the names are arrays of 20 bytes.
pub record SProperty : Type 0 where
  static_id : ℕ
  pub position : Point
  pub name : Text
  pub password : Text

-- SProperty(): memset to 0.
abbrev blank_property : SProperty
blank_property = record {
  static_id = 0;
  position = record { x = 0; y = 0 };
  name = replicate 20 0;
  password = replicate 20 0;
}

-- A Pet has the m_IID of Object and one of its own, which hides it.
pub record Pet : Type 0 where
  object_iid : ℕ
  pub iid : ℕ
  pub dnid : ℕ
  pub property : SProperty

-- Pet::Pet()
abbrev pub new_pet : Pet
new_pet = record { object_iid = 0; iid = iid_pets; dnid = 0xffff_ffff; property = blank_property }

-- Pet::GetDnid()
abbrev pub get_dnid : Pet → ℕ
get_dnid pet = pet.dnid

-- Pet::VDC: the pet, if it is asked for as a pet.
unfoldable vdc : Pet → ℕ → Option Pet
vdc pet iid = if iid == iid_pets then some pet else none

-- Object::DynamicCast, called through a pointer that may be null.
unfoldable dynamic_cast : Option Pet → ℕ → Option Pet
unfolding vdc
dynamic_cast none iid = none
dynamic_cast (some pet) iid = if iid == pet.object_iid then some pet else vdc pet iid
