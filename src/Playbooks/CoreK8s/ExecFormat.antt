-- ===== src/Playbooks/CoreK8s/ExecFormat.antt =====
-- internal/playbooks/corek8s/execformaterror.go: a purely diagnostic playbook, whose one action has
-- no `Run`. `sorted` is `sort.Strings`.
use k8s_ts_mcp.Common.{
  String, append_text, not, none, List, [], ◌∷◌, ◌==◌, if◌then◌else◌, select, text_contains, join,
  Map, end, str, num, Call, ◌>>=◌, wrap_err, continue,
}
use k8s_ts_mcp.Policy.{risk_high}
use k8s_ts_mcp.ExecEngine.{Action, Ladder}
use k8s_ts_mcp.K8sClient.{Api}
use k8s_ts_mcp.K8sClient.Pods.{TerminationInfo, container_termination, pod_node_name}
use k8s_ts_mcp.K8sClient.Nodes.{label, node_architecture, cluster_architectures}
use k8s_ts_mcp.Playbooks.{Signal, Finding, Playbook}
use k8s_ts_mcp.Playbooks.CoreK8s.{diagnosing, found}

module _ {W : Type 0} (api : Api W) (sorted : List String → List String) where
  -- The summary's first part, by what the runtime says of the failure.
  abbrev failure_text : Signal → TerminationInfo → String
  failure_text sig info =
      let start =
        api.sprintf "pod %s/%s não conseguiu executar o entrypoint do container (exit code %d)"
          (str sig.namespace (str sig.name (num info.exit_code end))) in
      if text_contains (api.to_lower info.message) "exec format error"
      then append_text start (
          append_text ": " (
            append_text info.message
              " — sinal clássico de imagem buildada pra arquitetura de CPU errada"))
      else if not (info.message == "")
      then append_text start (append_text ": " info.message)
      else append_text start
          " (o runtime não expôs mensagem — sem log nem texto de erro disponível via API; exit code consistente com falha ao executar o entrypoint, ex: exec format error por arquitetura incompatível ou binário corrompido — verifique manualmente com `kubectl describe pod`/`docker inspect` da imagem)"

  abbrev node_meta : String → String → Map String
  node_meta node arch = ("node", node) ∷ ("failed_arch", arch) ∷ []

  abbrev with_others : Signal → String → String → String → List String → Call W Finding
  with_others sig summary node arch [] =
      found sig
        (append_text summary (
          api.sprintf
            ". Rodou no nó %s (%s); todos os nós do cluster são dessa mesma arquitetura, então não tem como só reagendar — se a imagem foi buildada pra outra arquitetura, precisa rebuildar."
            (str node (str arch end))))
        (node_meta node arch)
  with_others sig summary node arch (o ∷ os) =
      found sig
        (append_text summary (
          api.sprintf
            ". Rodou no nó %s (%s); o cluster também tem nó(s) %s disponível(is) — se a imagem foi buildada pra essa outra arquitetura, um nodeAffinity resolveria sem rebuild."
            (str node (str arch (str (join ", " (o ∷ os)) end)))))
        (("node", node) ∷ ("failed_arch", arch) ∷ ("other_archs", join "," (o ∷ os)) ∷ [])

  abbrev compare_nodes : Signal → String → String → String → Call W Finding
  compare_nodes sig summary node arch w =
      continue (cluster_architectures api w)
        (λ archs. with_others sig summary node arch (sorted (select (λ a. not (a == arch)) archs)))
        (λ _. found sig summary (node_meta node arch))

  abbrev at_node : Signal → String → String → Call W Finding
  at_node sig summary node w =
      if node == ""
      then found sig summary [] w
      else continue (node_architecture api node w)
          (λ arch w'.
            if arch == "" then found sig summary [] w' else compare_nodes sig summary node arch w')
          (λ _. found sig summary [])

  unfoldable pub exec_format_diagnose : Signal → Call W Finding
  unfolding select
  exec_format_diagnose sig = do
    info ←
        wrap_err (diagnosing sig.namespace sig.name)
          (container_termination api sig.namespace sig.name)
    λ w.
        continue (pod_node_name api sig.namespace sig.name w) (at_node sig (failure_text sig info))
          (λ _. found sig (failure_text sig info) [])

  abbrev advice : String → String → String → String → String
  advice ns pod failed_arch other_archs =
      if not (other_archs == "")
      then api.sprintf
          "se a imagem do pod %s/%s foi buildada para %s (não %s), adicione nodeAffinity pra agendar só nesses nós: kubectl patch deployment <nome> -n %s --type=json -p '[{\"op\":\"add\",\"path\":\"/spec/template/spec/affinity\",\"value\":{\"nodeAffinity\":{\"requiredDuringSchedulingIgnoredDuringExecution\":{\"nodeSelectorTerms\":[{\"matchExpressions\":[{\"key\":\"kubernetes.io/arch\",\"operator\":\"In\",\"values\":[%q]}]}]}}}}]'. Se a imagem foi buildada pra %s mesmo (e o problema é outro, ex: binário corrompido), isso não resolve — nesse caso vale rebuildar."
          (str ns (
            str pod
              (str other_archs (str failed_arch (str ns (str other_archs (str failed_arch end)))))))
      else if not (failed_arch == "")
      then api.sprintf
          "nenhum outro nó com arquitetura diferente disponível no cluster (só %s) — rebuilde a imagem pra essa plataforma: docker buildx build --platform linux/%s --push"
          (str failed_arch (str failed_arch end))
      else api.sprintf
          "verifique a arquitetura do nó (kubectl get node -o wide) e da imagem do pod %s/%s, e rebuilde com a plataforma certa: docker buildx build --platform linux/amd64,linux/arm64 --push"
          (str ns (str pod end))

  unfoldable pub exec_format_action : Finding → Action W
  exec_format_action f = record {
    name = "corrigir incompatibilidade de arquitetura";
    description =
        advice f.signal.namespace f.signal.name (label "failed_arch" f.meta)
          (label "other_archs" f.meta);
    risk = risk_high;
    snapshot = none;
    run = none;
    validate = none;
    rollback = none;
  }

  unfoldable pub exec_format_ladder : Finding → Ladder W
  unfolding exec_format_action
  exec_format_ladder f = record {
    playbook_id = "core/execformaterror";
    actions = exec_format_action f ∷ [];
  }

  unfoldable pub exec_format_error : Playbook W
  unfolding exec_format_ladder
  exec_format_error = record {
    id = "core/execformaterror";
    resource = "core";
    detect = λ sig. sig.kind == "PodExecFormatError";
    diagnose = exec_format_diagnose;
    ladder = exec_format_ladder;
    recheck = none;
  }
