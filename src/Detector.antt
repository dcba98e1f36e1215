-- ===== src/Detector.antt =====
-- internal/detector: what the scan makes of names, images and credentials.
pub mod Findings
pub mod ServiceTypes
pub mod Naming
pub mod ValidNames
pub mod Credentials
pub mod CredentialLaws
pub mod Scan
pub mod ScanLaws
pub mod Platform
pub mod HostPaths
pub mod HostPathLaws
