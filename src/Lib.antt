-- ===== src/Lib.antt =====
-- The swarm autoscaler scales the services of a Docker swarm by what their containers do. Each node runs
-- a daemon and two BPF programs. The first, a kprobe, counts the connections of each container's network
-- namespace and reports a namespace whose count stays out of its limits; the daemon then asks the manager
-- node for a replica more or fewer. A service with one replica that is to lose it is kept alive for a
-- while, then every node starts to listen on its port and it is scaled to zero. The second program, a
-- packet classifier, reports a packet to such a port, and the daemon scales the service up again.
--
-- Base             numbers, bytes, two's complement and Booleans that the parts share
-- Kernel           the structures of autoscaler/conc_req_monitoring/bpf/vmlinux.h that the kprobe reads
--                  through, with all that they hold by value (Kernel/Types), and their layout in memory:
--                  offsets, sizes and alignment as a C compiler lays them out (Kernel/Layout)
-- Bpf/Maps         BPF maps as an interface with the laws of lookup, update and delete; Bpf/Table is an
--                  implementation with room for a fixed number of entries
-- Bpf/ConcReq      autoscaler/conc_req_monitoring/bpf/conc_req_monitoring.c: `kprobe_tcp_recvmsg` on one
--                  call of tcp_recvmsg, with the maps as they are shared with the daemon. Monitor is the
--                  abstract machine of one namespace, Refinement and Trace tie the kprobe to it, Debounce
--                  and Safety state what follows, Netns is about the pointers that are followed, First
--                  about the first firing after a registration. Race has several CPUs in one namespace,
--                  one access to a shared entry at a time.
-- Bpf/Classifier   autoscaler/bpf_port_listen/bpf/tc-port-monitor.c: `port_classifier` on the bytes of a
--                  packet; Headers reads them as the protocols say
-- Bpf/Cgroup       archive/cgroup_net_listen/bpf: the two programs of an earlier prototype
-- Daemon/ConcReq   autoscaler/conc_req_monitoring/conc_req_monitoring.go: `addNamespace`,
--                  `removeNamespace`, the limits that `InitBPFListener` stores, and `listenForEvents`, from
--                  what the reader gives to what comes out of the channels (Listening)
-- Daemon/Monitor   the same file: one turn of the loop of `Monitor`
-- Daemon/Session   the same file: `Monitor` from its start (Start) over its messages (Handshake) to its
--                  end (End). A step is a firing of the kprobe, a message that `listenForEvents` loses or
--                  reads, its receipt by `Monitor`, or the end of that turn after its sleep
-- Daemon/Server    autoscaler/server/server.go: requests to the other nodes, and the HTTP handlers
-- Daemon/Ports     autoscaler/bpf_port_listen/listener.go: `ListenOnPort`, `RemovePort`, and what a sample
--                  of the classifier sets off (Wake); Samples has the loop over the samples,
--                  Capacity the room in the map, Race the two calls in two goroutines
-- Daemon/Scale     autoscaler/scale/scale.go: `ChangeServiceReplicas`, `scaleTo` and the timer of
--                  `keepAliveAndScaleDown`; Client is the interface to Docker, Outcomes has the
--                  postconditions, Replicas, Isolation, Progress and ZeroScale are about single steps,
--                  Sleep goes from the last replica to none, Specs and Pinning are about the constraints of
--                  a service. Threads has the same requests and timers as goroutines that make one access
--                  at a time: Alone and Timers tie a goroutine that is not disturbed to the whole call,
--                  Channels, Late, Lost and Double are about goroutines interleaved, Traces has the runs
--                  that they build
-- Daemon/Containers  the same file, and autoscaler/autoscaler/autoscaler.go: `ScaleService`, which
--                  containers a node owns (Ownership), and the monitors that the events of Docker and
--                  the loop of `main` start and stop (Lifecycle); Namespace has
--                  `GetContainerNamespace`
-- Daemon/Config    autoscaler/autoscaler/autoscaler.go: the configuration, the choice of the resource
--                  that is monitored (Selection), the nodes of the swarm (Nodes)
-- Daemon/Cgroup    autoscaler/cgroup_monitoring/cgroup_monitoring.go: the usage files of a container
--                  (Numbers, Usage), the ticks of the monitors of CPU and memory and their loops (Loop);
--                  Daemon/Float is its interface to float64
-- Daemon/Main      autoscaler/autoscaler/autoscaler.go: `main` from its start to its loops and servers, with
--                  `InitBPFListener`, `initBPFPortListener` and `initScaler`; Monitors and Listeners have the
--                  lemmas on what it starts, Startup what holds then
-- Daemon/Cycle     the parts together, from connections to a replica more, and from the end of a
--                  keep-alive period over a packet to a running service
-- Tests            the models on small inputs, and the theorems applied to them
--
-- A function of the source becomes a function from the state before to the state after, with an error as a
-- value; a goroutine that waits in a `select` is an entry of a table of waiting channels, a send that
-- nobody receives is the outcome `blocks`, and a nil dereference is `panics`. Words are natural numbers
-- with their wrap-around written out. No model needs fuel: every loop is over a list, or
-- the turns of a goroutine or a CPU are counted, with a theorem on how many are enough.
--
-- Parameters: the maps of the kernel, its memory and the offsets that the loader fills in, Docker, the
-- network, the host name, float64, the JSON, YAML and duration decoders, and in Daemon/Main the results of
-- the loader of BPF programs and of the other libraries; what is assumed of them stands
-- in Bpf/Maps, Daemon/Scale/Client, Daemon/Float and the hypotheses of a theorem. In Bpf/ConcReq/Race an
-- update of a map entry is taken to write it in place. In Daemon/Scale/Threads and Daemon/Ports/Race an
-- access to a map or a channel of Go, and a call of Docker or of the other nodes, is taken to be one
-- indivisible access. Elsewhere firings of the kprobe, requests and timers run one after another. Not
-- modelled are logs and printed messages, how the BPF programs are loaded and attached, and their closing,
-- which nothing calls.
pub mod Base
pub mod Kernel
pub mod Bpf
pub mod Daemon
pub mod Tests
