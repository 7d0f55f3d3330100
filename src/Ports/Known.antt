-- ===== src/Ports/Known.antt =====
-- ports.go: knownPorts.
use efe_process_monitor.Common.{ℕ, [], ◌∷◌}
use efe_process_monitor.Common.Texts.{Text, codes}
use efe_process_monitor.Common.Maps.{Map}

abbrev pub known_ports : Map ℕ Text
known_ports =
    (53, codes "DNS")
    ∷ (67, codes "DHCP Server")
    ∷ (68, codes "DHCP Client")
    ∷ (80, codes "HTTP")
    ∷ (88, codes "Kerberos")
    ∷ (123, codes "NTP")
    ∷ (135, codes "MSRPC")
    ∷ (137, codes "NetBIOS-NS")
    ∷ (138, codes "NetBIOS-DGM")
    ∷ (139, codes "NetBIOS-SSN")
    ∷ (389, codes "LDAP")
    ∷ (443, codes "HTTPS")
    ∷ (445, codes "SMB")
    ∷ (464, codes "Kerberos Change/Set")
    ∷ (500, codes "ISAKMP (IPsec)")
    ∷ (636, codes "LDAPS")
    ∷ (989, codes "FTPS")
    ∷ (990, codes "FTPS")
    ∷ (993, codes "IMAPS")
    ∷ (995, codes "POP3S")
    ∷ (25, codes "SMTP")
    ∷ (110, codes "POP3")
    ∷ (143, codes "IMAP")
    ∷ (587, codes "SMTP Submission")
    ∷ (22, codes "SSH")
    ∷ (23, codes "Telnet")
    ∷ (3389, codes "RDP")
    ∷ (5900, codes "VNC")
    ∷ (5901, codes "VNC")
    ∷ (5938, codes "TeamViewer")
    ∷ (7070, codes "AnyDesk")
    ∷ (7071, codes "AnyDesk")
    ∷ (1025, codes "RPC Dynamic")
    ∷ (1026, codes "RPC Dynamic")
    ∷ (1027, codes "RPC Dynamic")
    ∷ (5357, codes "WS-Discovery")
    ∷ (5358, codes "WS-Discovery")
    ∷ (5985, codes "WinRM HTTP")
    ∷ (5986, codes "WinRM HTTPS")
    ∷ (7680, codes "Windows Delivery Optimization")
    ∷ (47001, codes "WinRM")
    ∷ (49664, codes "RPC Dynamic")
    ∷ (49665, codes "RPC Dynamic")
    ∷ (49666, codes "RPC Dynamic")
    ∷ (49667, codes "RPC Dynamic")
    ∷ (49668, codes "RPC Dynamic")
    ∷ (49669, codes "RPC Dynamic")
    ∷ (902, codes "VMware")
    ∷ (903, codes "VMware")
    ∷ (912, codes "VMware")
    ∷ (2179, codes "Hyper-V")
    ∷ (16509, codes "Libvirt")
    ∷ (1433, codes "MSSQL")
    ∷ (1434, codes "MSSQL Browser")
    ∷ (1521, codes "Oracle DB")
    ∷ (2041, codes "Interbase/Firebird")
    ∷ (2082, codes "cPanel")
    ∷ (2083, codes "cPanel SSL")
    ∷ (2086, codes "WHM")
    ∷ (2087, codes "WHM SSL")
    ∷ (2095, codes "Webmail")
    ∷ (2096, codes "Webmail SSL")
    ∷ (2181, codes "Zookeeper")
    ∷ (2375, codes "Docker")
    ∷ (2376, codes "Docker TLS")
    ∷ (2483, codes "Oracle DB SSL")
    ∷ (2484, codes "Oracle DB SSL")
    ∷ (27017, codes "MongoDB")
    ∷ (28015, codes "RethinkDB")
    ∷ (3306, codes "MySQL")
    ∷ (5432, codes "PostgreSQL")
    ∷ (6379, codes "Redis")
    ∷ (7474, codes "Neo4j")
    ∷ (9042, codes "Cassandra")
    ∷ (81, codes "HTTP Alt")
    ∷ (3000, codes "Dev Server")
    ∷ (3001, codes "Dev Server")
    ∷ (3128, codes "Squid Proxy")
    ∷ (5000, codes "Flask / Dev")
    ∷ (5001, codes "Dev HTTPS")
    ∷ (7001, codes "WebLogic")
    ∷ (7002, codes "WebLogic SSL")
    ∷ (8000, codes "HTTP Alt")
    ∷ (8008, codes "HTTP Alt")
    ∷ (8080, codes "HTTP Proxy / Alt")
    ∷ (8081, codes "HTTP Alt")
    ∷ (8088, codes "HTTP Alt")
    ∷ (8089, codes "Splunk")
    ∷ (8181, codes "HTTP Alt")
    ∷ (8443, codes "HTTPS Alt")
    ∷ (8888, codes "Dev Server")
    ∷ (9000, codes "SonarQube / Dev")
    ∷ (9090, codes "Prometheus / Web")
    ∷ (9100, codes "Node Exporter")
    ∷ (9115, codes "Blackbox Exporter")
    ∷ (9125, codes "Netdata")
    ∷ (5601, codes "Kibana")
    ∷ (1194, codes "OpenVPN")
    ∷ (1701, codes "L2TP")
    ∷ (1723, codes "PPTP")
    ∷ (4500, codes "IPsec NAT-T")
    ∷ (6881, codes "BitTorrent")
    ∷ (6882, codes "BitTorrent")
    ∷ (6883, codes "BitTorrent")
    ∷ (6884, codes "BitTorrent")
    ∷ (6885, codes "BitTorrent")
    ∷ (6886, codes "BitTorrent")
    ∷ (6887, codes "BitTorrent")
    ∷ (6888, codes "BitTorrent")
    ∷ (6889, codes "BitTorrent")
    ∷ (1900, codes "UPnP")
    ∷ (2869, codes "UPnP")
    ∷ (8200, codes "DLNA")
    ∷ (32400, codes "Plex")
    ∷ (2377, codes "Docker Swarm")
    ∷ (6443, codes "Kubernetes API")
    ∷ (10250, codes "Kubelet")
    ∷ (10255, codes "Kubelet Readonly")
    ∷ (1812, codes "RADIUS")
    ∷ (1813, codes "RADIUS Accounting")
    ∷ (5060, codes "SIP")
    ∷ (5061, codes "SIP TLS")
    ∷ (5222, codes "XMPP")
    ∷ (5269, codes "XMPP Server")
    ∷ (6667, codes "IRC")
    ∷ (6697, codes "IRC SSL")
    ∷ (853, codes "DNS over TLS")
    ∷ (5353, codes "mDNS")
    ∷ (5355, codes "LLMNR")
    ∷ (3478, codes "STUN")
    ∷ (5349, codes "STUN/TURN TLS")
    ∷ (9418, codes "Git")
    ∷ (11211, codes "Memcached")
    ∷ (5672, codes "AMQP")
    ∷ (15672, codes "RabbitMQ Mgmt")
    ∷ (9092, codes "Kafka")
    ∷ (5984, codes "CouchDB")
    ∷ (8086, codes "InfluxDB")
    ∷ (9200, codes "Elasticsearch")
    ∷ (3074, codes "Xbox Live")
    ∷ (25565, codes "Minecraft")
    ∷ (27015, codes "Steam/Source")
    ∷ (51413, codes "Transmission")
    ∷ []
