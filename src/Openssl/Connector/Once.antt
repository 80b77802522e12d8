-- ===== src/Openssl/Connector/Once.antt =====
-- `init_trust` of src/imp/openssl.rs over the calls of `TlsConnector::new` that a process makes.
use rust_native_tls.Prelude.{◌≡◌, refl, ◌∙◌, ap, true, false, List, [], ◌∷◌}
use rust_native_tls.Builder.Connector.{TlsConnectorBuilder}
use rust_native_tls.Openssl.Library.{Library}
use rust_native_tls.Openssl.Identity.{Identity}
use rust_native_tls.Openssl.Trust.{Process, call_once, init_trust}
use rust_native_tls.Openssl.Connector.{Build, new}

module _ (L : Library) (build : Build) where
  -- The process after `TlsConnector::new` of each builder in turn, whatever the calls return.
  pub new_each : List (TlsConnectorBuilder (Identity L) L.X509) → Process L → Process L
  new_each [] process = process
  new_each (b ∷ bs) process = new_each bs (new L build b process).1

  new_each_again :
      (bs : List (TlsConnectorBuilder (Identity L) L.X509)) (process : Process L)
      → process.once ≡ true
      → new_each bs process ≡ process
  unfolding new_each new init_trust
  new_each_again [] process h = refl
  new_each_again (b ∷ bs) process h =
      ap (new_each bs) (ap (call_once L process) h) ∙ new_each_again bs process h

  -- However many connectors a process makes, and whether or not that succeeds, the first call
  -- sets up the certificate variables of the environment and no later one does.
  pub new_each_once :
      (b : TlsConnectorBuilder (Identity L) L.X509)
      (bs : List (TlsConnectorBuilder (Identity L) L.X509)) (process : Process L)
      → process.once ≡ false
      → new_each (b ∷ bs) process
        ≡ record { once = true; env = L.init_ssl_cert_env_vars process.env }
  unfolding new_each new init_trust
  new_each_once b bs process h =
      ap (new_each bs) (ap (call_once L process) h) ∙ new_each_again bs _ refl
