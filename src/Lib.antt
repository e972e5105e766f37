-- ===== src/Lib.antt =====
-- Verification of bt_api_security: access control, OAuth 2.0, audit logging, threat detection,
-- multi-factor authentication, encryption, identities, disaster recovery, monitoring, compliance,
-- and the framework's decorators.
--
-- The program is a set of Python classes that keep their state in dictionaries and lists. Most do
-- not call each other: a service checks a permission with `AccessControlManager`, issues tokens with
-- `OAuth2Provider`, verifies second factors with `MFAProvider`, writes what happened with
-- `AuditLogger`, reports attacks to `ThreatDetector`, and so on. `EncryptionManager` works on any
-- `KeyManager`, and the decorators of `src/bt_api_security/framework.py` put access control and the
-- audit logger around a caller's functions.
--
-- Files and code:
--   Prelude        shared types and lemmas: Boolean tests, lists and sets, the monad `Exec` of a
--                  method that may raise, `str.strip`, `str(n)`, `int(time)`, invariants of
--                  methods (Prelude/Keeps), methods that raise only before they write
--                  (Prelude/Atomic)
--   Dict           Python dictionaries with text keys, as lists of items in insertion order
--   AccessControl  src/bt_api_security/core/access_control.py
--     Types        PermissionLevel, Resource, Permission, Role, User, AccessContext
--     Roles        Role's methods and _init_system_roles
--     Manager      AccessControlManager: users, roles, check_permission, require_permission
--     Sessions     sessions, locks, record_login_attempt, get_user_permissions, audit_access
--     Decisions, Permissions, Lockout, Invariant, Writes, Preserves: proofs
--   OAuth          src/bt_api_security/auth/oauth2_provider.py
--     Types        GrantType, TokenType, OAuthClient, OAuthUser, the codes and tokens
--     Inputs       the _require_ and _normalize_ methods
--     Provider     OAuth2Provider: registration and authorization codes, PKCE
--     Tokens       access and refresh tokens, revocation, introspection, clean-up
--     Frames, Codes, Rotation, Atomicity, Calls, Traces, SingleUse, Cleanup: proofs
--   Audit          src/bt_api_security/core/audit_logger.py
--     Enums        EventType, SeverityLevel, and the conversions of their values
--     Types        AuditEvent, its hash, to_dict and from_dict
--     Logger       AuditLogger: opening, log_event, subscribers, verification, clean-up
--     Queries      search_events, get_compliance_report
--     Chain, Integrity, Tampering, Search: proofs
--   Threat         src/bt_api_security/core/threat_detection.py
--     Types        ThreatLevel, ThreatType, ThreatEvent, the state of ThreatDetector
--     Detector     the detect_ methods and analyze_login_anomaly
--     Responses    summary, resolve_threat, auto_respond_to_threat, baselines
--     FailedLogins, Detection, Resolution: proofs
--   Mfa            src/bt_api_security/auth/mfa_provider.py
--     Types        MFAType, MFAConfig, WebAuthnCredential, the state of MFAProvider
--     Setup        construction, backup codes, set-up of TOTP and HOTP
--     Provider     TOTP and HOTP verification, disable_mfa, what only reads
--     Webauthn     registration and authentication
--     Codes, BackupCodes, Counters, SignCounts, Replay, Traces, Kept: proofs
--   Encryption     src/bt_api_security/core/encryption_manager.py
--     Types        the enumerations, EncryptionKey, and the KeyManager class as a record of
--                  operations on a state
--     Local        LocalKeyManager
--     Remote       AWSKMSKeyManager, HashiCorpVaultKeyManager
--     Manager      EncryptionManager on any KeyManager, create_key_manager
--     Interface    the laws of a KeyManager that EncryptionManager's proofs use; Stored and
--                  LocalLaws prove them for LocalKeyManager
--     Ciphers, Active, RoundTrip, Fresh, Errors: proofs
--   Identity       src/bt_api_security/core/identity_manager.py
--     Types        Identity, Group, the state of IdentityManager
--     Manager      identities, passwords, authentication, group membership
--     Accounts     updates, suspending, activating, locking
--     Queries      searches, permissions, the summary
--     Membership, Traces, Shadowing, Reports: proofs
--   Recovery       src/bt_api_security/recovery/disaster_recovery.py
--     Manager      DisasterRecoveryManager
--     Identifiers  proofs
--   Monitoring     src/bt_api_security/monitoring/security_monitoring.py
--     Alerts       SecurityAlert, SecurityMonitoring
--     Reading      proofs
--   Compliance     src/bt_api_security/core/compliance_monitor.py
--     Monitor      ComplianceRule, ComplianceMonitor
--     Totals       proofs
--   Framework      src/bt_api_security/framework.py
--     Guards       the decorators require_permission and audit_access, secure_create_feed
--     Permitted, Audited: proofs
--
-- State and calls: an object's attributes are a record, a method is a function from the record to
-- a result (`ok` or `err`) and the record after it, and what was written before a raise stays
-- written. An object that a dictionary holds and a caller also has is changed by `adjust` at its
-- key. Times are whole microseconds, from 0 on; every reading of the clock, every random token,
-- the host's time zone and the file system's success are arguments. A set is a list without
-- repetition, in the order of iteration.
--
-- Parameters: the SHA-256 text of a PKCE verifier (OAuth), and the JSON line of an event's
-- dictionary, its reading and the SHA-256 of an event (Audit); pyotp, and cbor2, base64 and json as one record of readers (Mfa);
-- hashlib and cryptography, boto3 and hvac (Encryption); bcrypt and `str.lower` (Identity). What is
-- assumed of a cipher is that it undoes itself, and of Fernet the same, and, where a result is
-- promised, that a cipher takes keys, nonces and data of the documented sizes; a base64 text is the
-- bytes it decodes to, and a file of key metadata the dictionary that `json.load` gives. Of json it
-- is assumed that it loads the dictionary that it dumped, that the line of it is not blank, and that
-- the line's `event_hash` field is the dictionary's. A line of the log file is what `strip` leaves
-- of it. A write of the log file that fails leaves the file as it was; reading it for the check may
-- raise after any number of lines.
--
-- Bounds and fuel: no operation has fuel but the digits of a number (Prelude/Decimal), whose fuel
-- is the number's successor, more than it has digits; all loops are over lists. The loop that draws
-- backup codes runs on the list of the numbers drawn, and gives nothing if they run out;
-- Mfa/Codes says when they are enough.
--
-- Not modelled: the RSA key and the JWT methods of the OAuth provider, which only call libraries;
-- the QR code of a TOTP set-up; the module-level audit logger; `int(text)` beyond
-- ASCII digits; attributes of users and details of events beyond texts, numbers, lists of texts and
-- truth values; lines of the log with an event type that is no text or a severity that is no
-- natural number; updates of an identity's field with a value of another type; failing writes of key
-- files; details of an alert beyond texts, and what alert handlers do; of framework.py, the
-- construction of the components and get_security_status; and the files
-- src/bt_api_security/data/protection.py and network/tls_manager.py.

pub mod Prelude
pub mod Dict
pub mod AccessControl
pub mod OAuth
pub mod Audit
pub mod Threat
pub mod Mfa
pub mod Encryption
pub mod Identity
pub mod Recovery
pub mod Monitoring
pub mod Compliance
pub mod Framework
