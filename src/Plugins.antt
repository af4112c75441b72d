-- ===== src/Plugins.antt =====
-- internal/plugins: the plugins of the gateway. A plugin's fields are one part S of the state W of the
-- process, which every other handler may read and write as well.
pub mod TenantInjector
pub mod LicenseCheck
pub mod Cors
pub mod Stubs
pub mod TokenValidator
pub mod VerifiedTenant

-- Where a part stands in the whole.
pub record Part (W S : Type 0) : Type 0 where
  pub part : W → S
  pub with_part : S → W → W
