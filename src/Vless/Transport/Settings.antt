-- ===== src/Vless/Transport/Settings.antt =====
-- backend/internal/vless/transport: the settings that each transport gives to Xray.
use xray2wg.Base.{
  true, false, Option, none, some, List, [], ◌∷◌, Text, codes, text_eq, ◌&&◌, if◌then◌else◌,
  is_empty, has_prefix, not,
}
use xray2wg.Vless.Query.{bool, number, text, object, Fields, end, field, field_if, default_string}
use xray2wg.Vless.Transport.{
  Library, Spec, WsSpec, GrpcSpec, KcpSpec, XhttpSpec, HttpUpgradeSpec, tcp_spec, ws_spec,
  grpc_spec, kcp_spec, xhttp_spec, httpupgrade_spec,
}

abbrev pub header_fields : List (Text × Text) → Fields
header_fields [] = end
header_fields ((k, v) ∷ hs) = field k (text v) (header_fields hs)

abbrev pub object_if : Text → Option Fields → Fields → Fields
object_if k none fs = fs
object_if k (some o) fs = field k (object o) fs

abbrev pub headers_if : List (Text × Text) → Fields → Fields
headers_if [] fs = fs
headers_if (h ∷ hs) fs = field (codes "headers") (object (header_fields (h ∷ hs))) fs

-- EmitSettings of each transport
unfoldable pub emit_ws : WsSpec → Option Fields
unfolding has_prefix
emit_ws s = some (
    field (codes "path")
      (text (if not (is_empty s.path) && has_prefix s.path (codes "/") then s.path else codes "/"))
      (field (codes "headers") (object (field (codes "Host") (text s.host) end)) end))

unfoldable pub emit_grpc : GrpcSpec → Option Fields
emit_grpc s =
    let more = field_if (codes "authority") s.authority end in
    some (
      field (codes "serviceName") (text (default_string s.service_name (codes "GunService")))
        (if s.multi_mode then field (codes "multiMode") (bool true) more else more))

unfoldable pub emit_kcp : KcpSpec → Option Fields
emit_kcp s = some (
    field (codes "mtu") (number 1350) (
      field (codes "tti") (number 20) (
        field (codes "uplinkCapacity") (number 5) (
          field (codes "downlinkCapacity") (number 20) (
            field (codes "congestion") (bool false) (
              field (codes "readBufferSize") (number 1) (
                field (codes "writeBufferSize") (number 1) (
                  field (codes "header")
                    (object (
                      field (codes "type") (text (default_string s.header_type (codes "none")))
                        end))
                    (field_if (codes "seed") s.seed end)))))))))

unfoldable pub emit_xhttp : Library → XhttpSpec → Option Fields
emit_xhttp lib s = some (
    field (codes "path") (text (default_string s.path (codes "/"))) (
      field (codes "mode") (text (default_string s.mode (codes "auto"))) (
        field_if (codes "host") s.host (
          if is_empty s.extra
          then end
          else object_if (codes "extra") (lib.json_object s.extra) end))))

unfoldable pub emit_httpupgrade : HttpUpgradeSpec → Option Fields
emit_httpupgrade s = some (
    field (codes "path") (text (default_string s.path (codes "/")))
      (field_if (codes "host") s.host (headers_if s.headers end)))

-- EmitSettings: nothing for plain TCP.
unfoldable pub emit_settings : Library → Spec → Option Fields
unfolding emit_ws emit_grpc emit_kcp emit_xhttp emit_httpupgrade
emit_settings lib tcp_spec = none
emit_settings lib (ws_spec s) = emit_ws s
emit_settings lib (grpc_spec s) = emit_grpc s
emit_settings lib (kcp_spec s) = emit_kcp s
emit_settings lib (xhttp_spec s) = emit_xhttp lib s
emit_settings lib (httpupgrade_spec s) = emit_httpupgrade s
