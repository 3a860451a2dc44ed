-- ===== src/Identity.antt =====
-- internal/identity/identity.go: the persisted names, and the file names of provision.go.
use local_tls.Base.{String}

abbrev pub file_system_dir : String
file_system_dir = "Keppin"

abbrev pub prod_ca_key_name : String
prod_ca_key_name = "Keppin.Agent.LocalHTTPS.CA.v1"

abbrev pub prod_server_key_name : String
prod_server_key_name = "Keppin.Agent.LocalHTTPS.Server.v1"

abbrev pub test_key_namespace : String
test_key_namespace = "Keppin.Test."

abbrev pub smoke_key_namespace : String
smoke_key_namespace = "Keppin.Test.Smoke."

abbrev pub smoke_ca_key_name : String
smoke_ca_key_name = "Keppin.Test.Smoke.LocalHTTPS.CA.v1"

abbrev pub smoke_server_key_name : String
smoke_server_key_name = "Keppin.Test.Smoke.LocalHTTPS.Server.v1"

abbrev pub cert_organization : String
cert_organization = "Keppin"

abbrev pub ca_cert_common_name : String
ca_cert_common_name = "Keppin Local Root CA"

abbrev pub tls_sub_dir : String
tls_sub_dir = "tls"

abbrev pub ca_cert_file : String
ca_cert_file = "ca-cert.der"

abbrev pub ca_key_file : String
ca_key_file = "ca-key.enc"

abbrev pub server_cert_file : String
server_cert_file = "server-cert.der"

abbrev pub server_key_file : String
server_key_file = "server-key.enc"

abbrev pub env_prefix : String
env_prefix = "KEPPIN"

abbrev pub test_sign_message : String
test_sign_message = "Keppin CNG ACL verification"
