-- ===== src/Errors.antt =====
-- The exceptions of the server side, and methods that may raise one of them.
use neutron_local_services_p.Base.{
  String, ◌≡◌, refl, Bool, true, false, Option, none, some, ◌⊎◌, inl, inr, arith,
}

pub data Error : Type 0 where
  -- `InvalidInput(error_message=...)`
  invalid_input : String → Error
  -- `ObjectNotFound(id=...)`
  object_not_found : String → Error
  -- what the database raises for a unique or a check constraint of db/models.py
  duplicate_entry check_violation : Error
  -- an `AddrFormatError` or `ValueError` of netaddr that nothing catches
  bad_address : Error
  -- `VIPOverlapsSubnetError` and `SubnetOverlapsServiceVIPError`
  vip_overlaps_subnet : String → String → Error
  subnet_overlaps_vip : String → String → Error
  service_unavailable : Error
  -- `LocalportLSPVerifyError`
  lsp_verify : String → Error
  -- any exception of Neutron's core plugin
  core_plugin_error : Error

pub data Result {μ} (Value : Type μ) : Type μ where
  err : Error → Result Value
  ok : Value → Result Value

-- `if not b: raise e`
abbrev pub require : Bool → Error → Result (Unit {0})
require b error = elim b [ true ↦ ok tt | false ↦ err error ]

-- `if not obj: raise e`
abbrev pub or_raise {μ} : {Value : Type μ} → Option Value → Error → Result Value
or_raise found error = elim found [ none ↦ err error | some value ↦ ok value ]

-- An exception ends the method.
infixl 5 ◌>>=◌ ◌>>◌
abbrev pub ◌>>=◌ {μ ν} :
    {Value : Type μ} {Next : Type ν} → Result Value → (Value → Result Next) → Result Next
method >>= rest = elim method [ err error ↦ err error | ok value ↦ rest value ]

abbrev pub ◌>>◌ {ν} : {Next : Type ν} → Result (Unit {0}) → Result Next → Result Next
check >> rest = check >>= λ done. rest

pub Result-cases {μ} :
    {Value : Type μ} (r : Result Value)
    → ((e : Error) × (r ≡ err e)) ⊎ ((value : Value) × (r ≡ ok value))
Result-cases (err e) = inl (e, refl)
Result-cases (ok value) = inr (value, refl)

pub bind-ok {μ ν} :
    {Value : Type μ} {Next : Type ν} (method : Result Value) (rest : Value → Result Next)
    (next : Next)
    → method >>= rest ≡ ok next
    → (value : Value) × (method ≡ ok value) × (rest value ≡ ok next)
bind-ok (err e) rest next h = absurd (ground arith)
bind-ok (ok value) rest next h = (value, refl, h)
