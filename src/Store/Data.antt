-- ===== src/Store/Data.antt =====
-- frontend/src/data/data.ts: the labels that are offered before a server has told its own.
use tornjak.Prelude.{List, [], ◌∷◌}
use tornjak.Js.{Text, codes}
use tornjak.Types.{SelectorInfo}

abbrev pub cluster_type : List Text
cluster_type = codes "Kubernetes" ∷ codes "VMs" ∷ []

abbrev pub selectors : SelectorInfo
selectors =
    (
      codes "aws_iid",
      codes "aws_iid:tag:name"
          ∷ codes "aws_iid:sg:id"
          ∷ codes "aws_iid:sg:name"
          ∷ codes "aws_iid:iamrole:arn:aws:iam"
          ∷ [],
    )
    ∷ (
      codes "gcp_iit",
      codes "gcp_iit:project-id"
          ∷ codes "gcp_iit:zone"
          ∷ codes "gcp_iit:instance-name"
          ∷ codes "gcp_iit:tag"
          ∷ codes "gcp_iit:sa"
          ∷ codes "gcp_iit:label"
          ∷ codes "gcp_iit:metadata"
          ∷ [],
    )
    ∷ (
      codes "k8s_psat",
      codes "k8s_psat:cluster"
          ∷ codes "k8s_psat:agent_ns"
          ∷ codes "k8s_psat:agent_sa"
          ∷ codes "k8s_psat:agent_pod_name"
          ∷ codes "k8s_psat:agent_pod_uid"
          ∷ codes "k8s_psat:agent_pod_label"
          ∷ codes "k8s_psat:agent_node_ip"
          ∷ codes "k8s_psat:agent_node_name"
          ∷ codes "k8s_psat:agent_node_uid"
          ∷ codes "k8s_psat:agent_node_label"
          ∷ [],
    )
    ∷ []

abbrev pub workload_selectors : SelectorInfo
workload_selectors =
    (codes "Docker", codes "docker:label" ∷ codes "docker:env" ∷ codes "docker:image_id" ∷ [])
    ∷ (
      codes "Kubernetes",
      codes "k8s:ns"
          ∷ codes "k8s:sa"
          ∷ codes "k8s:container-image"
          ∷ codes "k8s:container-name"
          ∷ codes "k8s:node-name"
          ∷ codes "k8s:pod-label"
          ∷ codes "k8s:pod-owner"
          ∷ codes "k8s:pod-owner-uid"
          ∷ codes "k8s:pod-uid"
          ∷ codes "k8s:pod-name"
          ∷ codes "k8s:pod-image"
          ∷ codes "k8s:pod-image-count"
          ∷ codes "k8s:pod-init-image"
          ∷ codes "k8s:pod-init-image-count"
          ∷ [],
    )
    ∷ (
      codes "Unix",
      codes "unix:uid"
          ∷ codes "unix:user"
          ∷ codes "unix:gid"
          ∷ codes "unix:group"
          ∷ codes "unix:supplementary_gid"
          ∷ codes "unix:supplementary_group"
          ∷ codes "unix:path"
          ∷ codes "unix:sha256"
          ∷ [],
    )
    ∷ []
