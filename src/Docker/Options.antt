-- ===== src/Docker/Options.antt =====
-- pkg/docker/config.go: the options that build the configuration of a container and of its host.
use tmctl.Base.{String, List, [], ◌∷◌, ◌++◌}
use tmctl.Docker.{ContainerConfig, HostConfig}

abbrev error_logging_level : String
error_logging_level = "K_LOGGING_CONFIG={\"zap-logger-config\":\"{\\\"level\\\": \\\"error\\\"}\"}"

unfoldable pub with_image : String → ContainerConfig → ContainerConfig
with_image image c = record c { image = image }

unfoldable pub with_env : List String → ContainerConfig → ContainerConfig
with_env env c = record c { env = c.env ++ env }

unfoldable pub with_port : String → ContainerConfig → ContainerConfig
with_port port c = record c { exposed_ports = port ∷ [] }

unfoldable pub with_entrypoint : List String → ContainerConfig → ContainerConfig
with_entrypoint entrypoint c = record c { entrypoint = entrypoint }

unfoldable pub with_volume_bind : String → HostConfig → HostConfig
with_volume_bind bind h = record h { binds = bind ∷ [] }

-- `open_port` is what `strconv.Itoa(pkg.OpenPort())` gives.
unfoldable pub with_host_port_binding : String → String → HostConfig → HostConfig
with_host_port_binding open_port container_port h = record h {
  port_bindings = (container_port, ("0.0.0.0", open_port) ∷ []) ∷ [];
}

unfoldable pub with_extra_host : HostConfig → HostConfig
with_extra_host h = record h { extra_hosts = "host.docker.internal:host-gateway" ∷ [] }

unfoldable pub with_error_logging_level : ContainerConfig → ContainerConfig
with_error_logging_level c = record c { env = c.env ++ error_logging_level ∷ [] }
