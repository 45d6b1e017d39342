-- ===== src/Lib.antt =====
-- The network driver of dra-linux-networks: a kubelet plugin for Dynamic Resource Allocation that
-- gives pods secondary network interfaces, with addresses from pools of the cluster.
--
-- The parts and how they interact. On each node the driver (internal/driver) prepares a claim: it
-- merges and checks the network configuration, chooses the interface name, and asks for an
-- address. Addresses are recorded in the cluster as IPAllocation objects (internal/ipamapi), one
-- for each address in use, and in the node's store, which is a file. The controller
-- (internal/controller) removes the records of claims that are gone and reports the numbers. The
-- configuration (internal/config) is read once, with its defaults and checks. When the pod starts,
-- the driver makes or moves its links into the pod's namespace; when it stops, physical interfaces
-- come back; when the claim is unprepared, its devices and its addresses are given back.
--
-- Which file models which part:
--   Prelude, Prelude/*      Go's strings, strconv, maps, slices and pairs of a value and an error
--   Net, Net/*              Go's package net: ParseIP, ParseCIDR, To4, Contains, String; and
--                           ipToUint32 and uint32ToIP of internal/driver/ipam.go (Net/Address)
--   Kube, Kube/*            unstructured objects, and the API server as a record of operations
--   IpamApi, IpamApi/*      internal/ipamapi/allocation.go
--   Config, Config/*        internal/config/config.go
--   Driver/Types            internal/driver/types.go
--   Driver/Network, /Naming internal/driver/driver.go: mergeConfig, validateConfig,
--                           podInterfaceName, podStaticAddress and the names of links
--   Driver/Status           internal/driver/status.go: conditions, keys and texts of reports
--   Driver/Dpdk             internal/driver/dpdk.go: which PCI devices are taken, their texts
--   Store, Store/*          internal/driver/store.go
--   Ipam/Ranges             internal/driver/ipam.go: validateIPRanges, ipInRanges, expandIPRange
--   Ipam/Apply, Ipam/Claim  internal/driver/ipam.go: applyIPAM and the functions that it calls
--   Ipam/Pools              internal/driver/driver.go: reloadIPPools, ipPoolFromUnstructured
--   Host/Kernel, /Link,     internal/driver/hostdevice.go: a physical interface's state, its move
--     /Moves                into a pod and back, over the calls of netlink and netns
--   Host/Child              internal/driver/driver.go: attachLink, addRoute
--   Inventory, Inventory/*  internal/driver/inventory.go, and discoverDPDKDevices of dpdk.go
--   Plugin/Prepare,         internal/driver/driver.go: prepareClaim; dpdk.go: prepareDPDKDevice;
--     /Inspect, /Desk,      hostdevice.go: validateHostDeviceSafety
--     /Claims
--   Plugin/Run              internal/driver/driver.go: RunPodSandbox
--   Plugin/Restore          internal/driver/hostdevice.go: restorePodHostDevices,
--                           restoreClaimHostDevices
--   Plugin/Unprepare        internal/driver/driver.go: UnprepareResourceClaims, Synchronize
--   Controller              internal/controller/controller.go
--   Examples, Examples/*    the theorems at concrete inputs
-- A definition has the name of the function that it models, in lower case with underscores. A
-- function that changes the cluster, the store or the driver takes that state and returns it with
-- its answer. Where a function makes a call and goes on with the answer, the part that follows the
-- call is often a definition of its own (after_get, after_list).
--
-- Parameters: the API server (Kube/Api), the accessors of unstructured objects (Kube/Object),
-- SHA-256, reflect.DeepEqual and SetNestedMap, the present time and the faults of the file system.
-- What is required of the server is in two records. IsLinearizable says that an answer is true of
-- the state in which it is given, and allows other clients to write between calls. IsUndisturbed
-- says that a call changes what it names and nothing else. Kube/Memory is a server that has both.
-- The kernel is the record Netlink of Host/Kernel: each call answers and changes a world, which
-- holds the namespace of the calling thread. IsNetlink (Host/Laws) says that a request that succeeds
-- has its effect on the link that it names and no other effect on it, and that an address that has
-- been added, or was there, is on the link; IsThread says that no call but netns.Set takes the
-- thread to another namespace, and that netns.Set brings it back to one that netns.Get has told.
-- Examples/Card is a kernel that has both. A file of the store is whole or torn, and the disk
-- keeps what the state file has held: os.WriteFile leaves its file torn until it has written it.
-- What the driver reports to the API server, and the writing of a CDI specification,
-- are the records Services and Inspect of Plugin; the files of sysfs are the record Files of
-- Inventory/Paths. HostDevice is a pointer that the store's device shares: Plugin/Run writes out
-- where that shows.
--
-- Bounds and fuel: an address is a number below 2 ^ 32, and the loop of expandIPRange wraps around
-- as in the source. The loop has one round for each value from the start to the end and one for
-- the last test. The search for a free interface name has one round for each index below 10000.
-- strconv.Itoa has one round for each decimal place. All other loops are recursion on lists.
--
-- Not modelled: Start and the publication of devices with their attributes; the bodies of the
-- calls that write a status or an event, which are taken as calls that answer; the decoding of the
-- state file in NewStore; the CDI files; what other goroutines do during a method; the kubelet
-- plugin's server, log lines, contexts and their deadlines, encoding/json, and the commands under
-- cmd. Error texts are values, except where a text is reported. net.ParseMAC, net.ParseIP of saved
-- texts and path.Match are parameters. A line of a file is as long as bufio.Scanner allows.
-- Letters are changed in case within ASCII.
pub mod Config
pub mod Controller
pub mod Driver
pub mod Examples
pub mod Host
pub mod Inventory
pub mod Ipam
pub mod IpamApi
pub mod Kube
pub mod Net
pub mod Plugin
pub mod Prelude
pub mod Store
